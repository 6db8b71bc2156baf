-- ===== src/Collections/Accounts.antt =====
-- What `_get_collection` of redfish_sdk/client.py returns accounts for every member it asked for.
use redfish_python_sdk.Prelude.{
  ℕ, zero, suc, ◌≤◌, ◌≡◌, ◌⊎◌, refl, sym, Bool, true, false, Option, none, some, List, [], ◌∷◌,
  ◌++◌, Text, str, mem, All, All-append, length, length-append, arith, inl, inr,
}
use redfish_python_sdk.Exceptions.{Exc, validation_error, paging_loop}
use redfish_python_sdk.Exec.{Run, returned, raised, lift}
use redfish_python_sdk.Exec.Ends.{Ends, ends_returned, ends_raised, Ends-lift, Ends-bind, Ends-if}
use redfish_python_sdk.Result.{ok}
use redfish_python_sdk.Collections.{
  Stage, member, require_resource_identity, page, Transport, Models, Walk, handle_failure,
  visit_page, go_on, walk, get_collection, no_members, collection_path,
}
use redfish_python_sdk.Collections.Invariants.{
  IsRoundInvariant, Anything, KeptNext, visit_page-Kept, failed,
}
use redfish_python_sdk.Collections.Outcomes.{
  Outcome, IsSourced, IsGivenAt, outcomes-more, IsSourced-more, IsMember-more, IsMember-last,
}

-- Each path of a member that was asked for was answered with a resource of the result, or is noted
-- as a failure; each resource of the result is an answer for such a path, and there are not more
-- resources than paths; and strict mode notes no failure.
pub record IsAccounted {S M : Type 0} (transport : Transport S M) (models : Models M)
    (strict : Bool) (w : Walk M) : Type 0 where
  pub outcomes : All (Outcome transport models w.expanded_members w.failures) w.visited_members
  pub sources : All (IsSourced transport models w.visited_members) w.expanded_members
  pub once : length w.expanded_members ≤ length w.visited_members
  pub complete : (strict ≡ false) ⊎ (w.failures ≡ [])

module _ {S M : Type 0} (transport : Transport S M) (models : Models M) (base_url : Text)
    (strict : Bool) where
  IsAccounted-round : IsRoundInvariant transport models strict (IsAccounted transport models strict)
  IsAccounted-round = record {
    failing = λ stage resource e w f h. record {
      outcomes = noting w stage resource e w.visited_members h.outcomes;
      sources = h.sources;
      once = h.once;
      complete = inl f;
    };
    missing = λ path e w f h. record {
      outcomes = (
        inr (record {
          failure = record { stage = member; resource = path; error = e };
          noted = IsMember-last _ w.failures;
          at_stage = refl;
          at_path = refl;
        }),
        noting w member path e w.visited_members h.outcomes,
      );
      sources = IsSourced-more transport models path w.visited_members w.expanded_members h.sources;
      once = omega (arith, h.once);
      complete = inl f;
    };
    keeping = λ path answer m w before after q i h. record {
      outcomes = (
        inl (record {
          resource = m;
          given_at = given_at path answer m before after q i;
          kept = IsMember-last m w.expanded_members;
        }),
        outcomes-more transport models w.expanded_members (w.expanded_members ++ (m ∷ []))
            w.failures w.failures w.visited_members
            (λ x. IsMember-more x w.expanded_members (m ∷ [])) (λ f k. k) h.outcomes,
      );
      sources =
          All-append (IsSourced transport models (path ∷ w.visited_members)) w.expanded_members
            (m ∷ [])
            (IsSourced-more transport models path w.visited_members w.expanded_members h.sources)
            (
              record {
                path = path;
                visited = inl refl;
                given_at = given_at path answer m before after q i;
              },
              tt,
            );
      once = omega (arith, h.once, length-append w.expanded_members (m ∷ []));
      complete = h.complete;
    };
  }
    where
      given_at :
          (path : Text) (answer m : M) (before after : S)
          → transport.get path before ≡ returned answer after
          → require_resource_identity models answer path ≡ ok m
          → IsGivenAt transport models path m
      given_at path answer m before after q i = record {
        answer = answer;
        was_given = record { before = before; after = after; given = q };
        has_identity = i;
      }

      noting :
          (w : Walk M) (stage : Stage) (resource : Text) (e : Exc) (paths : List Text)
          → All (Outcome transport models w.expanded_members w.failures) paths
          → All
              (Outcome transport models w.expanded_members (failed stage resource e w).failures)
              paths
      noting w stage resource e paths =
          outcomes-more transport models w.expanded_members w.expanded_members w.failures _ paths
            (λ m k. k) (λ f. IsMember-more f w.failures _)

  abbrev Accounted : Option (Walk M) → S → Type 0
  Accounted none _ = Unit
  Accounted (some w) _ = IsAccounted transport models strict w

  entered-IsAccounted :
      (path : Text) (w : Walk M)
      → IsAccounted transport models strict w
      → IsAccounted transport models strict (record w { visited_pages = path ∷ w.visited_pages })
  entered-IsAccounted path w h = record {
    outcomes = h.outcomes;
    sources = h.sources;
    once = h.once;
    complete = h.complete;
  }

  looped-IsAccounted :
      (b : Bool) (path : Text) (e : Exc) (w : Walk M) (s : S)
      → b ≡ strict
      → IsAccounted transport models strict w
      → Ends
          (λ w _. IsAccounted transport models strict w)
          Anything
          (lift (handle_failure b page path e w) s)
  unfolding handle_failure
  looped-IsAccounted true path e w s q h = ends_raised tt
  looped-IsAccounted false path e w s q h =
      ends_returned (IsAccounted-round.failing page path e w (sym q) h)

  onward :
      (fuel : ℕ)
      → ((path : Text) (w : Walk M) (s : S)
          → IsAccounted transport models strict w
          → Ends Accounted Anything (walk transport models base_url strict fuel path false w s))
      → (next : Option Text × Walk M) (s : S)
      → KeptNext transport models base_url strict IsAccounted-round Anything next s
      → Ends Accounted Anything (
          go_on transport models base_url strict
            (λ path w. walk transport models base_url strict fuel path false w)
            next
            s)
  onward fuel again (none, w) s h = ends_returned h
  onward fuel again (some path, w) s (_, h) = again path w s h

  walk-IsAccounted :
      (fuel : ℕ) (path : Text) (first_page : Bool) (w : Walk M) (s : S)
      → IsAccounted transport models strict w
      → Ends Accounted Anything (walk transport models base_url strict fuel path first_page w s)
  unfolding walk
  walk-IsAccounted zero path first_page w s h = ends_returned tt
  walk-IsAccounted (suc fuel) path first_page w s h =
      Ends-if (mem path w.visited_pages) _ _
        (λ _.
          Ends-bind (lift (handle_failure strict page path (validation_error paging_loop) w)) _ s
            (looped-IsAccounted strict path (validation_error paging_loop) w s refl h)
            (λ w s h. ends_returned h))
        (λ _.
          Ends-bind
            (visit_page transport models base_url strict path first_page
              (record w { visited_pages = path ∷ w.visited_pages }))
            _ s
            (visit_page-Kept transport models base_url strict IsAccounted-round Anything path
              first_page (record w { visited_pages = path ∷ w.visited_pages }) s
              (λ p s s' raw found next g r c. tt) (entered-IsAccounted path w h))
            (onward fuel (λ path w s h. walk-IsAccounted fuel path false w s h)))

  no_members-IsAccounted : IsAccounted transport models strict no_members
  no_members-IsAccounted = record {
    outcomes = tt;
    sources = tt;
    once = omega arith;
    complete = inr refl;
  }

  returned-IsAccounted :
      (r : Run S (Option (Walk M))) (w : Walk M) (s : S)
      → Ends Accounted Anything r
      → r ≡ returned (some w) s
      → IsAccounted transport models strict w
  returned-IsAccounted (returned none s') w s h e = absurd (cc e)
  returned-IsAccounted (returned (some v) s') w s (ends_returned h) e = ground arith
  returned-IsAccounted (raised x s') w s h e = absurd (cc e)

  -- Where a collection is returned: for each path of a member that was visited, the transport gave
  -- a resource with an identity that stands in the result, or the path is noted as a failure of a
  -- member; each resource of the result is one that the transport gave for a visited path, and
  -- there are not more of them than visited paths; and in strict mode there is no failure.
  pub get_collection-IsAccounted :
      (fuel : ℕ) (odata_id : Text) (w : Walk M) (s s' : S)
      → get_collection transport models base_url strict fuel odata_id s ≡ returned (some w) s'
      → IsAccounted transport models strict w
  unfolding get_collection
  get_collection-IsAccounted fuel odata_id w s s' e =
      returned-IsAccounted _ w s'
        (Ends-bind (lift (collection_path base_url odata_id (str "/"))) _ s first
          (λ path s _. walk-IsAccounted fuel path true no_members s no_members-IsAccounted))
        e
    where
      first : Ends (λ _ _. Unit) Anything (lift (collection_path base_url odata_id (str "/")) s)
      first = Ends-lift (collection_path base_url odata_id (str "/")) s (λ _ _. tt) tt
