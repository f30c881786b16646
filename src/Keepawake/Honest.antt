-- ===== src/Keepawake/Honest.antt =====
-- The two counters of guards against the guards that are alive, over any sequence of acquires and
-- releases (crates/supervisor-core/src/keepawake.rs).
use decent_render.Prelude.{
  ℕ, suc, ◌≡◌, inl, inr, refl, List, [], ◌∷◌, Option, none, some, Option-cases, length, ◌+◌, ◌^◌,
  ◌<◌, ◌≤◌, arith,
}
use decent_render.Os.{Fallible-cases}
use decent_render.Keepawake.{
  Caffeine, Counters, JobKeepAwake, fetch_add, current_state, is_held, acquire, drop_child, release,
  kill_child_tree,
}
use decent_render.Keepawake.Kill.{Clocked, kill_child_tree_lem}
use decent_render.Keepawake.Counted.{
  take_out, honest, count_held, count_childless, fetch_add_lem, fetch_sub_lem, saturating_lem,
  take_out-count, IsExact, current_state-honest,
}

-- A job acquires a guard, or the guard at a position is released.
pub data Action : Type 0 where
  job_begins : Action
  guard_dies : ℕ → Action

-- The counters, the guards alive and the world.
pub record Awake (W : Type 0) : Type 0 where
  pub counters : Counters
  pub live : List JobKeepAwake
  pub world : W

module _ {W : Type 0} (caffeine : Caffeine W) where
  open caffeine use {spawn}

  unfoldable act_on : Action → Awake W → Option (Awake W)
  unfolding acquire release
  act_on job_begins s =
      let (g, c, w) = acquire caffeine s.counters s.world in
      some (record { counters = c; live = g ∷ s.live; world = w })
  act_on (guard_dies n) s = elim (take_out n s.live) [
    | none ↦ some s
    | some (g, rest) ↦
        let (c, after) = release caffeine g s.counters s.world in
        elim after [ none ↦ none | some w ↦ some (record { counters = c; live = rest; world = w }) ]
  ]

  -- A series of actions; `none` where a teardown did not end.
  pub act_all : List Action → Awake W → Option (Awake W)
  unfolding act_on
  act_all [] s = some s
  act_all (a ∷ actions) s = elim (act_on a s) [ none ↦ none | some t ↦ act_all actions t ]

  taken : Awake W → ℕ
  taken s = s.counters.active + s.counters.failed

  module _ (clocked : Clocked caffeine) where
    drop_child-IsExact :
        (child : Option ℕ) (gs : List JobKeepAwake) (c : Counters) (w : W)
        → IsExact c (record { child = child } ∷ gs)
        → c.active + c.failed < 2 ^ 63
        → (v : W) × ((drop_child caffeine child c w).1 ≡ some v)
          × IsExact (drop_child caffeine child c w).0 gs
          × (suc (
                (drop_child caffeine child c w).0.active + (drop_child caffeine child c w).0.failed)
              ≡ c.active + c.failed)
    unfolding drop_child IsExact count_held count_childless is_held
    drop_child-IsExact none gs c w (active, failed) small =
        let less = saturating_lem (count_childless gs) (ground (arith, failed, small)) in
        (w, refl, (active, rw (failed, less) refl), ground (arith, active, failed, less))
    drop_child-IsExact (some pid) gs c w (active, failed) small =
        let less = fetch_sub_lem (count_held gs) (ground (arith, active, small)) in
        elim (Option-cases (kill_child_tree caffeine pid w)) [
          | inl endless ↦ absurd (kill_child_tree_lem caffeine clocked pid w endless)
          | inr (v, over) ↦
              (v, over, (rw (active, less) refl, failed), ground (arith, active, failed, less))
        ]

    act_on-IsExact :
        (a : Action) (s : Awake W)
        → IsExact s.counters s.live
        → taken s + 1 < 2 ^ 63
        → (t : Awake W) × (act_on a s ≡ some t)
          × IsExact t.counters t.live
          × (taken t ≤ taken s + 1)
    unfolding act_on taken IsExact count_held count_childless is_held acquire release drop_child
    act_on-IsExact job_begins s (active, failed) small = elim (Fallible-cases (spawn s.world).0) [
      | inl (pid, came) ↦
          let more = fetch_add_lem s.counters.active (omega arith) in
          let t : Awake W = record {
            counters = record s.counters { active = fetch_add s.counters.active };
            live = record { child = some pid } ∷ s.live;
            world = (spawn s.world).1;
          } in
          (
            t,
            rw (act_on, acquire, came) refl,
            (ground (arith, active, more), failed),
            ground (arith, more),
          )
      | inr (message, refused) ↦
          let more = fetch_add_lem s.counters.failed (omega arith) in
          let t : Awake W = record {
            counters = record s.counters { failed = fetch_add s.counters.failed };
            live = record { child = none } ∷ s.live;
            world = (spawn s.world).1;
          } in
          (
            t,
            rw (act_on, acquire, refused) refl,
            (active, ground (arith, failed, more)),
            ground (arith, more),
          )
    ]
    act_on-IsExact (guard_dies n) s h small = elim (Option-cases (take_out n s.live)) [
      | inl nobody ↦ (s, rw (act_on, nobody) refl, h, omega arith)
      | inr ((g, rest), e) ↦
          let (held-same, failed-same) = take_out-count n s.live g rest e in
          let (v, over, exact, fewer) =
            drop_child-IsExact g.child rest s.counters s.world
              (ground (arith, h, held-same, failed-same)) (omega arith) in
          let t : Awake W = record {
            counters = (drop_child caffeine g.child s.counters s.world).0;
            live = rest;
            world = v;
          } in
          (t, rw (act_on, e, over) refl, exact, omega arith)
    ]

    act_all-IsExact :
        (actions : List Action) (s : Awake W)
        → IsExact s.counters s.live
        → taken s + length actions < 2 ^ 63
        → (t : Awake W) × (act_all actions s ≡ some t)
          × IsExact t.counters t.live
          × (taken t < 2 ^ 63)
    unfolding act_all
    act_all-IsExact [] s h small = (s, refl, h, ground (arith, small))
    act_all-IsExact (a ∷ actions) s h small =
        let (t, stepped, exact, more) = act_on-IsExact a s h (ground (arith, small)) in
        let (u, done, last, few) = act_all-IsExact actions t exact (ground (arith, small, more)) in
        (u, rw (act_all, stepped) done, last, few)

    -- Whatever guards jobs acquire and release, and whichever acquires fail, every teardown ends, and
    -- a status surface then says held if a guard that is alive has a child, failed if guards are alive
    -- and none has one, and nothing if no guard is alive.
    pub act_all-honest :
        (actions : List Action) (w : W)
        → length actions < 2 ^ 63
        → let idle : Awake W = record {
          counters = record { active = 0; failed = 0 };
          live = [];
          world = w;
        } in
          (t : Awake W) × (act_all actions idle ≡ some t)
          × (current_state t.counters ≡ honest t.live)
    unfolding taken IsExact count_held count_childless
    act_all-honest actions w small =
        let idle : Awake W = record {
          counters = record { active = 0; failed = 0 };
          live = [];
          world = w;
        } in
        let (t, e, exact, few) =
          act_all-IsExact actions idle (refl, refl) (ground (arith, small)) in
        (t, e, current_state-honest t.counters t.live exact few)
