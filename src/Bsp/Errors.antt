-- ===== src/Bsp/Errors.antt =====
-- bspgraph/graph.go: the error values, wrapped as `xerrors.Errorf("…: %w", err)` wraps them.
use etherscan.Base.{ℕ, Bool, true, false}
use etherscan.Base.Text.{Text}

pub data Error : Type 0 where
  unknown_edge_source destination_is_local invalid_message_destination : Error
  compute_fn_missing : Error
  -- `wrapped s e` names the vertex or destination of the message; `foreign` comes from callbacks,
  -- compute functions and contexts.
  wrapped : Text → Error → Error
  foreign : ℕ → Error
  -- A nil dereference or a failed type assertion, which ends the program.
  panicked : Error

-- xerrors.Is(err, ErrDestinationIsLocal)
unfoldable pub is_destination_is_local : Error → Bool
is_destination_is_local destination_is_local = true
is_destination_is_local (wrapped s e) = is_destination_is_local e
is_destination_is_local _ = false
