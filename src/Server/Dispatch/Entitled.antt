-- ===== src/Server/Dispatch/Entitled.antt =====
-- Who can make the server of crates/skadi-server/src/lib.rs connect, and where to.
use skadi_core.Prelude.{ℕ, ◌≡◌, ◌⊎◌, ◌++◌, Bool, List, All}
use skadi_core.Stream.{Conn}
use skadi_core.Protocol.{Protocol}
use skadi_core.Inbound.{InboundRequest}
use skadi_core.Inbound.Access.{Admitted}
use skadi_core.Server.Store.{StoreState}
use skadi_core.Server.Dispatch.{Event, Outside}
use skadi_core.Server.Dispatch.Guarded.{IsQuietEvent, IsAllowed}

module _ (allow_private : Bool) (outside : Outside) where
  -- What a connection may have had done: nothing, or what its credentials and the policy allow.
  abbrev pub IsEntitled : StoreState → Conn → List Event → Type 0
  IsEntitled users c log =
      All IsQuietEvent log
      ⊎ ((protocol : Protocol) × (r : InboundRequest) × (used : List ℕ) × (rest : List ℕ) × (c.input
            ≡ used ++ rest)
          × Admitted users used r protocol
          × All (IsAllowed allow_private r.command r.target) log)
