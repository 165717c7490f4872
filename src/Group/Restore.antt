-- ===== src/Group/Restore.antt =====
-- A group comes back from its checkpoint as it was.
use herterarchy_broker.Common.{◌≡◌, sym, ap, subst, [], ◌∷◌, ◌++◌, map, ok, arith}
use herterarchy_broker.Common.Maps.{Map, values, IsOrdered}
use herterarchy_broker.Common.Ends.{insert-end, append_assoc, append_nil}
use herterarchy_broker.Identifiers.{ConsumerId}
use herterarchy_broker.Identifiers.Order.{id_key}
use herterarchy_broker.Group.{ConsumerGroup, Consumer}
use herterarchy_broker.Group.Checkpoint.{
  checkpoint_member, restore_member, restore_members, checkpoint, from_checkpoint,
}

-- Each member stands under its own identifier.
abbrev pub IsKeyed : Map ConsumerId Consumer → Type 0
IsKeyed [] = Unit {0}
IsKeyed ((k, c) ∷ cs) = (k ≡ c.id) × IsKeyed cs

-- Restoring the rest of a map onto its beginning.
restore_members-values :
    (done rest : Map ConsumerId Consumer)
    → IsOrdered (done ++ rest)
    → IsKeyed rest
    → restore_members (map checkpoint_member (values rest)) done ≡ ok (done ++ rest)
unfolding restore_members checkpoint_member restore_member
restore_members-values done [] h keyed = ap ok (sym (append_nil done))
restore_members-values done ((k, c) ∷ rest) h keyed =
    let (put, fresh) = insert-end k c done rest h in
    let assoc = append_assoc done ((k, c) ∷ []) rest in
    let h' = subst IsOrdered (sym assoc) h in
    let ih = restore_members-values (done ++ ((k, c) ∷ [])) rest h' keyed.1 in
    let e = keyed.0 in ground (arith, ih, assoc)

-- A group whose members are in order, each under its own identifier, is restored from its checkpoint
-- exactly as it was.
pub from_checkpoint-checkpoint_group :
    (g : ConsumerGroup)
    → IsOrdered g.consumers
    → IsKeyed g.consumers
    → from_checkpoint (checkpoint g) ≡ ok g
unfolding from_checkpoint checkpoint
from_checkpoint-checkpoint_group g h keyed =
    ground (arith, restore_members-values [] g.consumers h keyed)
