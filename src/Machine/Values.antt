-- ===== src/Machine/Values.antt =====
-- Values of the domain that their own constructors accept, which hence come back from their text.
use Prim.Native.String.{String}
use herterarchy_broker.Common.{
  ℕ, ◌≤◌, ◌≡◌, refl, ap, ◌∙◌, false, List, [], ◌∷◌, map, length, all, ok, arith,
}
use herterarchy_broker.Common.Sets.{insert, contains, IsOrdered}
use herterarchy_broker.Common.Extensional.{ordered_ext}
use herterarchy_broker.Identifiers
use herterarchy_broker.Identifiers.{Identifier}
use herterarchy_broker.Identifiers.Validation.{IsWellFormed, new-ok_iff}
use herterarchy_broker.Task.{TaskObjective, TaskResult}
use herterarchy_broker.Task.Text.{is_whitespace, byte_len, new_objective, new_result, text_limits}
use herterarchy_broker.Group.CapabilitySet.{
  Capability, Capabilities, cap_key, new_capability, normalize, new_capabilities,
}
use herterarchy_broker.Group.Matching.{new_capabilities-set, named}

abbrev pub IsId : Identifier → Type 0
IsId id = IsWellFormed id.bytes

abbrev pub IsObjective : TaskObjective → Type 0
IsObjective o = (all is_whitespace o.text ≡ false) × (byte_len o.text ≤ 16_384)

abbrev pub IsResult : TaskResult → Type 0
IsResult r = (all is_whitespace r.text ≡ false) × (byte_len r.text ≤ 65_536)

abbrev pub AreValid : List Capability → Type 0
AreValid [] = Unit {0}
AreValid (c ∷ cs) = (new_capability c.value ≡ ok c) × AreValid cs

abbrev pub IsCapabilities : Capabilities → Type 0
IsCapabilities c = IsOrdered c.items × AreValid c.items × (length c.items ≤ 64)

pub new-IsId : (kind : String) (id : Identifier) → IsId id → Identifiers.new kind id.bytes ≡ ok id
new-IsId kind id h = (new-ok_iff kind id.bytes id).1 (h, refl)

pub new_objective-IsObjective : (o : TaskObjective) → IsObjective o → new_objective o.text ≡ ok o
new_objective-IsObjective o (s, b) =
    ((text_limits o.text o (record { text = [] })).0).1 (s, b, refl)

pub new_result-IsResult : (r : TaskResult) → IsResult r → new_result r.text ≡ ok r
new_result-IsResult r (s, b) = ((text_limits r.text (record { text = [] }) r).1).1 (s, b, refl)

abbrev pub values : List Capability → List (List ℕ)
values cs = map (λ c. c.value) cs

normalize_accepts :
    (cs acc : List Capability)
    → AreValid cs
    → (out : List Capability) × (normalize (values cs) acc ≡ ok out)
unfolding normalize
normalize_accepts [] acc h = (acc, refl)
normalize_accepts (c ∷ cs) acc h =
    let (out, e) = normalize_accepts cs (insert c acc) h.1 in (out, ground arith)

named-values : (cs : List Capability) → map named (values cs) ≡ cs
named-values [] = refl
named-values (c ∷ cs) = ap (λ rest. c ∷ rest) (named-values cs)

length-values : (cs : List Capability) → length (values cs) ≡ length cs
length-values [] = refl
length-values (c ∷ cs) = omega (arith, length-values cs)

pub new_capabilities-IsCapabilities :
    (c : Capabilities) → IsCapabilities c → new_capabilities (values c.items) ≡ ok c
unfolding new_capabilities
new_capabilities-IsCapabilities c (ordered, valid, few) =
    let (out, e) = normalize_accepts c.items [] valid in
    let got : Capabilities = record { items = out } in
    let accepted : new_capabilities (values c.items) ≡ ok got =
      ground (arith, length-values c.items) in
    let (_, o, same) = new_capabilities-set (values c.items) got accepted in
    let ext =
      ordered_ext out c.items o ordered (λ x. same x ∙ ap (contains x) (named-values c.items)) in
    ground (arith, accepted)
