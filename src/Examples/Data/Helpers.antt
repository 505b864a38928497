-- ===== src/Examples/Data/Helpers.antt =====
-- The documented laws of the condition helpers and of label selectors, by concrete functions.
use openshift_update_experie.Prelude.{
  Option, String, ◌≡◌, refl, Bool, false, List, [], ◌∷◌, ◌++◌, none, some, ◌==◌, eq_iff, all, arith,
  join, map, ◌<>◌,
}
use openshift_update_experie.Meta.{Time, Condition, ConditionsApi, has_type, stamp}
use openshift_update_experie.Meta.Laws.{condition_of, put}
use openshift_update_experie.Mco.{StringMap, get?}
use openshift_update_experie.NodeState.{SelectorApi}

pub put_appends :
    (wall : Time) (cs : List Condition) (c : Condition)
    → has_type c.type cs ≡ false
    → put wall c cs ≡ cs ++ stamp wall none c ∷ []
unfolding put
put_appends wall [] c h = refl
put_appends wall (x ∷ cs) c h = ground (arith, put_appends wall cs c)

pub put_updates :
    (wall : Time) (pre post : List Condition) (old c : Condition)
    → has_type c.type pre ≡ false
    → old.type ≡ c.type
    → put wall c (pre ++ old ∷ post) ≡ pre ++ stamp wall (some old) c ∷ post
unfolding put
put_updates wall [] post old c h e = rw ((eq_iff _ _).1 e) refl
put_updates wall (x ∷ pre) post old c h e = ground (arith, put_updates wall pre post old c)

pub of_misses :
    (t : String) (cs : List Condition) → has_type t cs ≡ false → condition_of t cs ≡ none
unfolding condition_of
of_misses t [] h = refl
of_misses t (x ∷ cs) h = ground (arith, of_misses t cs)

pub of_first :
    (t : String) (pre post : List Condition) (old : Condition)
    → has_type t pre ≡ false
    → old.type ≡ t
    → condition_of t (pre ++ old ∷ post) ≡ some old
unfolding condition_of
of_first t [] post old h e = rw ((eq_iff _ _).1 e) refl
of_first t (x ∷ pre) post old h e = ground (arith, of_first t pre post old)

abbrev pub helpers : ConditionsApi
helpers = record {
  set_status_condition = λ wall cs c. put wall c cs;
  find_status_condition = λ cs t. condition_of t cs;
  set_appends = put_appends;
  set_updates = put_updates;
  find_misses = of_misses;
  find_first = of_first;
}

-- A selector is the pairs that the labels must have; that of a nil one matches nothing.
abbrev pub has_pair : StringMap → String × String → Bool
unfolding get?
has_pair l (k, v) = elim (get? l k) [ none ↦ false | some w ↦ w == v ]

abbrev pub pairs : SelectorApi
pairs = record {
  Selector = Option (List (String × String));
  matches = λ s l. elim s [ none ↦ false | some required ↦ all (has_pair l) required ];
  string =
      λ s. elim s [ none ↦ "" | some required ↦ join "," (map (λ p. p.0 <> "=" <> p.1) required) ];
  label_selector_as_selector =
      λ s. some (elim s [ none ↦ none | some selector ↦ some selector.match_labels ]);
}
