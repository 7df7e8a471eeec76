-- ===== src/Examples/Walks.antt =====
-- Concrete runs of the theorems on the identity walk and on tenant ids.
use toise.Common.{
  true, false, ◌≡◌, refl, subst, List, [], ◌∷◌, codes, Str, arith, In, inl, inr, is_some, str_Eq,
  str_eq, Bool-cases,
}
use toise.Model.Value.{double}
use toise.Model.Entity.{Relation}
use toise.Canonical.{walk, one_bits, confidence_key, other_end}
use toise.Canonical.Visit.{Reach, start, hop}
use toise.Canonical.Reach.{walk-terminates, walk-reaches, Group, group}
use toise.Tenant.{sanitize, trim_space, trim_left, trim_right}
use toise.Tenant.Safe.{IsSegment, sanitize-IsSegment, sanitize-sanitize}

-- The belief, held for certain, that two hosts are one.
abbrev belief : Relation
belief = record {
  id = codes "r";
  type = codes "same_as";
  from = codes "1";
  to = codes "2";
  attributes = record { key = confidence_key; value = double one_bits } ∷ [];
  structural = false;
}

abbrev touching : Str → List Relation
touching id = belief ∷ []

abbrev basis_of : Relation → Str
basis_of r = []

abbrev nodes : List Str
nodes = codes "1" ∷ codes "2" ∷ []

end-In : (x : Str) → In (other_end x belief) nodes
end-In x = elim (Bool-cases (str_eq (codes "2") x)) [
  | inl b ↦ rw b (inl refl)
  | inr b ↦ rw b (inr (inl refl))
]

reached-In : (x : Str) → Reach touching one_bits (codes "1") x → In x nodes
reached-In _ start = inl refl
reached-In _ (hop x r h (inl q) b) = subst (λ e. In (other_end x e) nodes) q (end-In x)
reached-In _ (hop x r h (inr i) b) = absurd i

walk-terminates_example : is_some (walk touching basis_of one_bits 3 (codes "1")) ≡ true
walk-terminates_example =
    walk-terminates touching basis_of one_bits (codes "1") nodes 3 reached-In (omega arith)

walk-reaches_example :
    Group touching basis_of one_bits
      (codes "1")
      (group touching basis_of one_bits (codes "1") (walk touching basis_of one_bits 3 (codes "1")))
walk-reaches_example =
    walk-reaches touching basis_of one_bits (codes "1") nodes 3 reached-In (omega arith)

sanitize-IsSegment_example : IsSegment (sanitize (codes " web-1 ")).0
unfolding sanitize trim_space trim_left trim_right str_eq
sanitize-IsSegment_example = sanitize-IsSegment (codes " web-1 ") refl

sanitize-sanitize_example :
    sanitize (sanitize (codes " web-1 ")).0 ≡ ((sanitize (codes " web-1 ")).0, true)
unfolding sanitize trim_space trim_left trim_right str_eq
sanitize-sanitize_example = sanitize-sanitize (codes " web-1 ") refl
