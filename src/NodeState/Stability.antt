-- ===== src/NodeState/Stability.antt =====
-- Whether a second merge with the same findings leaves the contents of the conditions alone
-- (internal/controller/nodestate/conditions.go).
use openshift_update_experie.Prelude.{
  ◌≡◌, refl, sym, subst, ◌∙◌, Bool, true, false, not, ◌||◌, List, [], ◌∷◌, ◌++◌, some,
  if◌then◌else◌, ◌==◌, eq_iff, select, select-all, arith, all,
}
use mathlib.Core.List.{append-nil}
use openshift_update_experie.Meta.{Time, Condition}
use openshift_update_experie.Meta.Laws.{Content, content, contents}
use openshift_update_experie.Meta.Contents.{
  put_content, find_content, has_content, contents-put, contents-select, contents-append,
  put_content_at, find_content-put_content, find_content-append_some, put_content-append,
  has_content-put_content, all-put_content, all-select, select-append, has_content-select,
  find_content-select, all-append, all-select_of_all,
}
use openshift_update_experie.Api.{updating_type, available_type, degraded_type}
use openshift_update_experie.NodeState.Merge.{merged}

abbrev pub managed_content : Content → Bool
managed_content c = c.type == updating_type || (c.type == available_type || c.type == degraded_type)

abbrev pub other_content : Content → Bool
other_content c = not (c.type == available_type)

-- The merge seen through the contents.
abbrev pub merged_contents : List Content → Bool → Content → Content → Content → List Content
merged_contents existing un u a d = put_content d (
    if un
    then select other_content (put_content u (select managed_content existing)) ++ a ∷ []
    else put_content a (put_content u (select managed_content existing)))

pub contents-merged :
    (wall : Time) (existing : List Condition) (un : Bool) (u a d : Condition)
    → contents (merged wall existing un u a d)
      ≡ merged_contents (contents existing) un (content u) (content a) (content d)
contents-merged wall existing true u a d =
    simp (
      contents-put,
      contents-append,
      contents-select other_content,
      contents-select managed_content,
    )
contents-merged wall existing false u a d = simp (contents-put, contents-select managed_content)

module _ (u a d : Content) (hu : u.type ≡ updating_type) (ha : a.type ≡ available_type)
    (hd : d.type ≡ degraded_type) where
  pub settled_in_place :
      (existing : List Content)
      → let r = merged_contents existing false u a d in merged_contents r false u a d ≡ r
  settled_in_place existing =
      let r : List Content = merged_contents existing false u a d in
      let m : all managed_content r ≡ true = all-put_content managed_content d _ (rw hd refl) (
        all-put_content managed_content a _ (rw ha refl) (
          all-put_content managed_content u _ (rw hu refl)
            (all-select managed_content existing))) in
      let fu : find_content updating_type r ≡ some u =
        simp (find_content-put_content, hd, ha, hu) in
      let fa : find_content available_type r ≡ some a = simp (find_content-put_content, hd, ha) in
      let fd : find_content degraded_type r ≡ some d = simp (find_content-put_content, hd) in
      rw (select-all managed_content r m) (
        rw (put_content_at updating_type u r hu fu)
          (rw (put_content_at available_type a r ha fa) (put_content_at degraded_type d r hd fd)))

  abbrev pub others : List Content → List Content
  others existing = select other_content (put_content u (select managed_content existing))

  managed_degraded : (c : Content) → (c.type == degraded_type) ≡ true → managed_content c ≡ true
  managed_degraded c h = ground arith

  other_degraded : (c : Content) → (c.type == degraded_type) ≡ true → other_content c ≡ true
  other_degraded c h = rw ((eq_iff c.type degraded_type).0 h) refl

  other_updating : (c : Content) → (c.type == updating_type) ≡ true → other_content c ≡ true
  other_updating c h = rw ((eq_iff c.type updating_type).0 h) refl

  others_degraded :
      (existing : List Content)
      → has_content degraded_type existing ≡ true
      → has_content degraded_type (others existing) ≡ true
  others_degraded existing h =
      has_content-select other_content degraded_type
        (put_content u (select managed_content existing)) other_degraded
      ∙ has_content-put_content u degraded_type (select managed_content existing)
      ∙ rw (has_content-select managed_content degraded_type existing managed_degraded, h)

  others_updating :
      (existing : List Content) → find_content updating_type (others existing) ≡ some u
  others_updating existing =
      find_content-select other_content updating_type
        (put_content u (select managed_content existing)) other_updating
      ∙ simp (find_content-put_content, hu)

  others_managed : (existing : List Content) → all managed_content (others existing) ≡ true
  others_managed existing =
      all-select_of_all managed_content other_content
        (put_content u (select managed_content existing))
        (all-put_content managed_content u (select managed_content existing) (rw hu refl)
          (all-select managed_content existing))

  -- With a Degraded condition already there, Available goes to the end and stays there.
  pub unavailable_shape :
      (existing : List Content)
      → has_content degraded_type existing ≡ true
      → merged_contents existing true u a d ≡ put_content d (others existing) ++ a ∷ []
  unavailable_shape existing h =
      put_content-append d (others existing) (a ∷ [])
        (subst (λ t. has_content t (others existing) ≡ true) (sym hd) (others_degraded existing h))

  module _ (existing : List Content) (h : has_content degraded_type existing ≡ true) where
    abbrev pub first : List Content
    first = put_content d (others existing) ++ a ∷ []

    first_managed : all managed_content first ≡ true
    first_managed =
        all-append managed_content (put_content d (others existing)) (a ∷ [])
          (all-put_content managed_content d (others existing) (rw hd refl)
            (others_managed existing))
          (rw ha refl)

    first_updating : find_content updating_type first ≡ some u
    first_updating =
        find_content-append_some updating_type (put_content d (others existing)) (a ∷ []) u (
          find_content-put_content d updating_type (others existing)
          ∙ rw hd (others_updating existing))

    first-others : select other_content first ≡ put_content d (others existing)
    first-others =
        select-append other_content (put_content d (others existing)) (a ∷ [])
        ∙ rw
            (
              select-all other_content (put_content d (others existing)) (
                  all-put_content other_content d (others existing) (rw hd refl)
                    (all-select other_content (put_content u (select managed_content existing)))),
              ha,
            )
            (append-nil (put_content d (others existing)))

    first_degraded : find_content degraded_type first ≡ some d
    first_degraded =
        find_content-append_some degraded_type (put_content d (others existing)) (a ∷ []) d
          (simp (find_content-put_content, hd))

    pub settled_at_end : merged_contents first true u a d ≡ first
    settled_at_end = rw (select-all managed_content first first_managed) (
        rw (put_content_at updating_type u first hu first_updating)
          (rw first-others (put_content_at degraded_type d first hd first_degraded)))
