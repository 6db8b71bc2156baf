-- ===== src/Gpu/Components.antt =====
-- The candidates of `_GpuInventory` in redfish_sdk/managers/gpu_discovery.py are the connected
-- components of the resources that were added, by their shared identities.
use mathlib.Core.List.{append-nil, append_assoc}
use redfish_python_sdk.Prelude.{
  ◌≡◌, refl, ◌∙◌, true, List, [], ◌∷◌, ◌++◌, map, Text, inl, inr, ◌↔◌, mem, All, All-append,
  IsMember, All-IsMember, arith, Bool-cases,
}
use redfish_python_sdk.Gpu.{
  Candidate, Resource, replace_first, hits, labelled, identities_of, add_candidate, add, add_all,
}
use redfish_python_sdk.Gpu.Groups.{Apart}
use redfish_python_sdk.Gpu.Disjoint.{
  IsUnion, IsDisjoint, Added, appended, replaced, add_candidate-Added, add_candidate-IsDisjoint,
  replace_first-All,
}
use redfish_python_sdk.Gpu.Chains.{
  Chain, linked, joined, Chain-sym, IsHeld, IsConnected, IsConnected-append, IsMember-snoc,
  IsHeld-snoc, IsHeld-last, hit-IsSubset, Within, replace_first-IsHeld, replace_first-merged,
  Anchor, hit-Anchor,
}

-- What holds of the candidates after each call of `add`.
record IsGrouped (sets : List (List Text)) (candidates : List Candidate) : Type 0 where
  disjoint : IsDisjoint candidates
  held : All (IsHeld candidates) sets
  connected : All (IsConnected sets) candidates

module _ (c : Candidate) (candidates : List Candidate) (sets : List (List Text)) where
  after : List (List Text)
  after = sets ++ (c.identities ∷ [])

  own_link : (x y : Text) → mem x c.identities ≡ true → mem y c.identities ≡ true → Chain after x y
  unfolding after
  own_link x y mx my = linked c.identities (IsMember-snoc c.identities sets) mx my

  union-Within :
      (merged : Candidate)
      → IsUnion c.identities (hits c.identities candidates) merged
      → (others : List Candidate) → ((d : Candidate) → IsMember d others → IsMember d candidates)
      → All (Within c.identities merged) others
  union-Within merged u [] inside = tt
  union-Within merged u (d ∷ others) inside = (
    λ t x m.
        u x ∙ ground (arith, hit-IsSubset c.identities candidates d x t (inside d (inl refl)) m),
    union-Within merged u others (λ e m. inside e (inr m)),
  )

  union-Anchor :
      (merged : Candidate) (x : Text)
      → IsUnion c.identities (hits c.identities candidates) merged
      → All (IsConnected sets) candidates
      → mem x merged.identities ≡ true
      → Anchor after c.identities x
  unfolding after
  union-Anchor merged x u h m = elim (Bool-cases (mem x c.identities)) [
    | inl own ↦ record { end = x; inside = own; chain = own_link x x own own }
    | inr other ↦
        hit-Anchor after c.identities x candidates
          (IsConnected-append sets (c.identities ∷ []) candidates h) (ground (arith, u x))
  ]

  union-IsConnected :
      (merged : Candidate)
      → IsUnion c.identities (hits c.identities candidates) merged
      → All (IsConnected sets) candidates
      → IsConnected after merged
  union-IsConnected merged u h x y mx my =
      let first = union-Anchor merged x u h mx in
      let last = union-Anchor merged y u h my in
      joined first.chain
        (joined (own_link first.end last.end first.inside last.inside) (Chain-sym last.chain))

  IsHeld-each :
      (result : List Candidate) (others : List (List Text))
      → ((s : List Text) → IsHeld candidates s → IsHeld result s)
      → All (IsHeld candidates) others
      → All (IsHeld result) others
  IsHeld-each result [] keep h = tt
  IsHeld-each result (s ∷ others) keep (p, h) = (keep s p, IsHeld-each result others keep h)

  add_candidate-IsGrouped : IsGrouped sets candidates → IsGrouped after (add_candidate c candidates)
  unfolding after
  add_candidate-IsGrouped h =
      at_added (add_candidate-Added c candidates) (add_candidate-IsDisjoint c candidates h.disjoint)
    where
      grown : All (IsConnected after) candidates
      grown = IsConnected-append sets (c.identities ∷ []) candidates h.connected

      at_added :
          {result : List Candidate}
          → Added c candidates result
          → IsDisjoint result
          → IsGrouped after result
      at_added (appended e) d = record {
        disjoint = d;
        held =
            All-append (IsHeld (candidates ++ (c ∷ []))) sets (c.identities ∷ [])
              (IsHeld-each (candidates ++ (c ∷ [])) sets (λ s k. IsHeld-snoc c s candidates k)
                h.held)
              (IsHeld-last c candidates, tt);
        connected = All-append (IsConnected after) candidates (c ∷ []) grown (own_link, tt);
      }
      at_added (replaced merged primary duplicates e u) d = record {
        disjoint = d;
        held =
            All-append (IsHeld (replace_first c.identities merged candidates)) sets
              (c.identities ∷ [])
              (IsHeld-each (replace_first c.identities merged candidates) sets
                (λ s k.
                  replace_first-IsHeld c.identities merged candidates s
                    (union-Within merged u candidates (λ _ m. m)) k)
                h.held)
              (
                replace_first-merged c.identities merged candidates duplicates primary c.identities
                    e (λ x m. u x ∙ ground arith),
                tt,
              );
        connected =
            replace_first-All c.identities (IsConnected after) merged candidates
              (union-IsConnected merged u h.connected) grown;
      }

-- The identities under which a resource is added.
abbrev pub identities_added : Resource → List Text
identities_added r = identities_of r.gpu r.identities

add_all-IsGrouped :
    (resources : List Resource) (candidates : List Candidate) (sets : List (List Text))
    → IsGrouped sets candidates
    → IsGrouped (sets ++ map identities_added resources) (add_all resources candidates)
unfolding add_all
add_all-IsGrouped [] candidates sets h = rw (append-nil sets) h
add_all-IsGrouped (r ∷ resources) candidates sets h =
    let all_identities = identities_added r in
    let added : Candidate = record {
      gpu = labelled r.gpu r.source_type all_identities;
      identities = all_identities;
    } in
    let next = add_candidate-IsGrouped added candidates sets h in
    rw (← append_assoc sets (all_identities ∷ []) (map identities_added resources)) (
      add_all-IsGrouped resources (add r.gpu r.source_type r.identities candidates)
        (sets ++ (all_identities ∷ [])) (unfold add after in next))

-- Where a set is held: no other candidate has an identity of it.
Apart-held :
    (s t : List Text) (candidates : List Candidate) (x : Text)
    → All (λ d. Apart s d.identities) candidates
    → IsHeld candidates t
    → mem x s ≡ true
    → mem x t ≡ true
    → ⊥
Apart-held s t [] x a h m k = h
Apart-held s t (d ∷ candidates) x (a, b) (inl p) m k = cc (a x m, p x k)
Apart-held s t (d ∷ candidates) x (a, b) (inr h) m k = Apart-held s t candidates x b h m k

same_candidate :
    (s : List Text) (candidates : List Candidate) (c : Candidate) (x y : Text)
    → IsDisjoint candidates
    → IsMember c candidates
    → IsHeld candidates s
    → mem x c.identities ≡ true
    → mem x s ≡ true
    → mem y s ≡ true
    → mem y c.identities ≡ true
same_candidate s [] c x y d m h cx sx sy = absurd m
same_candidate s (e ∷ candidates) c x y (a, d) (inl same) (inl p) cx sx sy = rw same (p y sy)
same_candidate s (e ∷ candidates) c x y (a, d) (inl same) (inr h) cx sx sy =
    absurd (Apart-held e.identities s candidates x a h (rw (← same) cx) sx)
same_candidate s (e ∷ candidates) c x y (a, d) (inr m) (inl p) cx sx sy =
    absurd
      (cc (All-IsMember (λ f. Apart e.identities f.identities) c candidates a m x (p x sx), cx))
same_candidate s (e ∷ candidates) c x y (a, d) (inr m) (inr h) cx sx sy =
    same_candidate s candidates c x y d m h cx sx sy

chain_inside :
    (sets : List (List Text)) (candidates : List Candidate) (c : Candidate) {x y : Text}
    → IsGrouped sets candidates
    → IsMember c candidates
    → Chain sets x y
    → mem x c.identities ≡ true
    → mem y c.identities ≡ true
chain_inside sets candidates c {x} {y} h m (linked s k p q) cx =
    same_candidate s candidates c x y h.disjoint m
      (All-IsMember (IsHeld candidates) s sets h.held k) cx p q
chain_inside sets candidates c h m (joined first last) cx =
    chain_inside sets candidates c h m last (chain_inside sets candidates c h m first cx)

-- The candidates are the connected components of the sets: each set lies in one of them, and the
-- identities of a candidate are those to which a chain leads from any one of them.
pub record AreComponents (sets : List (List Text)) (candidates : List Candidate) : Type 0 where
  pub held : All (IsHeld candidates) sets
  pub exact :
      (c : Candidate) (x y : Text)
      → IsMember c candidates
      → mem x c.identities ≡ true
      → (mem y c.identities ≡ true) ↔ Chain sets x y

-- Whatever resources are added, in whatever order, the candidates at the end are the connected
-- components of the resources by shared identities: every resource lies in one of them, and two
-- identities are in one candidate exactly if a chain of the resources leads from one to the other.
pub add_all-AreComponents :
    (resources : List Resource)
    → AreComponents (map identities_added resources) (add_all resources [])
add_all-AreComponents resources =
    let grouped =
      add_all-IsGrouped resources [] [] (record { disjoint = tt; held = tt; connected = tt }) in
    record {
      held = grouped.held;
      exact = λ c x y m cx. (
        λ cy.
            All-IsMember (IsConnected (map identities_added resources)) c (add_all resources [])
              grouped.connected m x y cx cy,
        λ chain.
            chain_inside (map identities_added resources) (add_all resources []) c grouped m chain
              cx,
      );
    }
