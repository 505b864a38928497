-- ===== src/NodeState/Selectors.antt =====
-- What the selector cache promises (internal/controller/nodestate/caches.go).
use openshift_update_experie.Prelude.{
  String, ◌≡◌, ◌≢◌, refl, sym, subst, ◌∙◌, inl, inr, Bool, true, false, not, ◌&&◌, [], ◌∷◌,
  if◌then◌else◌, ◌==◌, eq_iff, any, arith, Bool-cases,
}
use openshift_update_experie.Mco.{StringMap, machine_config_pool_master, machine_config_pool_worker}
use openshift_update_experie.NodeState.Caches.{SelectorApi, SelectorCache, which_from, which_mcp}

master_not_worker : (machine_config_pool_master == machine_config_pool_worker) ≡ false
master_not_worker = refl

worker_is :
    (w : String) → w ≡ machine_config_pool_worker → (w == machine_config_pool_worker) ≡ false → ⊥
worker_is w e h = ground (arith, eq_iff w machine_config_pool_worker)

-- One turn of the loop, on whether the selector matches.
abbrev turn : Bool → String → String → String
turn m k more =
    if k == machine_config_pool_master && m
    then machine_config_pool_master
    else if m
    then (if k == machine_config_pool_worker then more else k)
    else more

stop_at :
    (m : Bool) (k more : String)
    → (m && not (k == machine_config_pool_worker)) ≡ true
    → turn m k more ≡ k
stop_at m k more h =
    ground (arith, eq_iff k machine_config_pool_master, eq_iff k machine_config_pool_worker)

pass_by :
    (m : Bool) (k more : String)
    → (m && not (k == machine_config_pool_worker)) ≡ false
    → turn m k more ≡ more
pass_by false k more h = ground arith
pass_by true k more h = elim (Bool-cases (k == machine_config_pool_worker)) [
  | inl e ↦ rw ((eq_iff _ _).0 e) refl
  | inr e ↦ ground (arith, h, e)
]

module _ (api : SelectorApi) (l : StringMap) where
  open api use {Selector, matches}

  -- A pool of the cache that the labels match, and one of them that is not the worker pool.
  abbrev pub is_match : String × Selector → Bool
  is_match (k, s) = matches s l

  abbrev pub is_special : String × Selector → Bool
  is_special (k, s) = matches s l && not (k == machine_config_pool_worker)

  abbrev pub is_named : String → String × Selector → Bool
  is_named name (k, s) = matches s l && k == name

  no_special :
      (ret : String) (cache : SelectorCache api)
      → any is_special cache ≡ false
      → which_from api ret cache l
        ≡ (if any is_match cache then machine_config_pool_worker else ret)
  unfolding which_from
  no_special ret [] h = refl
  no_special ret ((k, s) ∷ rest) h = ground (
    arith,
    eq_iff k machine_config_pool_worker,
    eq_iff k machine_config_pool_master,
    no_special ret rest,
    no_special k rest,
  )

  special_matches :
      (cache : SelectorCache api) → any is_match cache ≡ false → any is_special cache ≡ false
  special_matches [] h = refl
  special_matches ((k, s) ∷ rest) h = ground (arith, special_matches rest)

  some_special :
      (ret : String) (cache : SelectorCache api)
      → any is_special cache ≡ true
      → (any (is_named (which_from api ret cache l)) cache ≡ true)
        × ((which_from api ret cache l == machine_config_pool_worker) ≡ false)
  unfolding which_from
  some_special ret [] h = cc
  some_special ret ((k, s) ∷ rest) h =
      let more = which_from api (if matches s l then k else ret) rest l in
      elim (Bool-cases (is_special (k, s))) [
        | inl e ↦
            subst
              (λ w.
                (any (is_named w) ((k, s) ∷ rest) ≡ true)
                × ((w == machine_config_pool_worker) ≡ false))
              (sym (stop_at (matches s l) k more e)) (ground (arith, eq_iff k k), ground arith)
        | inr e ↦
            let (found, other) =
              some_special (if matches s l then k else ret) rest (ground (arith, h, e)) in
            subst
              (λ w.
                (any (is_named w) ((k, s) ∷ rest) ≡ true)
                × ((w == machine_config_pool_worker) ≡ false))
              (sym (pass_by (matches s l) k more e)) (ground (arith, found), other)
      ]

  -- The pool of a node, whatever the order of the cache: without a matching pool it is none; the
  -- worker pool is taken if nothing else matches; otherwise it is a matching pool of the cache that
  -- is not the worker pool.
  pub which_mcp_lem :
      (cache : SelectorCache api)
      → (any is_match cache ≡ false → which_mcp api cache l ≡ "")
        × (any is_match cache ≡ true
            → any is_special cache ≡ false
            → which_mcp api cache l ≡ machine_config_pool_worker)
        × (any is_special cache ≡ true
            → (any (is_named (which_mcp api cache l)) cache ≡ true)
              × (which_mcp api cache l ≢ machine_config_pool_worker))
  unfolding which_mcp
  which_mcp_lem cache = (
    λ h. no_special "" cache (special_matches cache h) ∙ rw h refl,
    λ h hs. no_special "" cache hs ∙ rw h refl,
    λ h.
        let (found, other) = some_special "" cache h in
        (found, λ e. worker_is (which_mcp api cache l) e other),
  )
