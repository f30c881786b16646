-- ===== src/Cache/Eviction.antt =====
-- What the eviction loop removes, in which order, and what it accounts for
-- (crates/supervisor-core/src/cache.rs).
use decent_render.Prelude.{
  ℕ, suc, ◌+◌, ◌-◌, ◌≤◌, ◌<◌, ◌≡◌, refl, ap, ◌⊎◌, inl, inr, true, false, not, List, [], ◌∷◌, ◌++◌,
  Text, All, retain, arith, Bool-cases, ltb, ◌==◌, if◌then◌else◌,
}
use decent_render.Os.{Os, IoError, IoResult, ok, err}
use decent_render.Cache.{Entry, Event, removed, failed, is_protected, evict}

-- The entry that an event is about.
abbrev pub entry_of : Event → Entry
entry_of (removed e) = e
entry_of (failed e) = e

abbrev pub entries_of : List Event → List Entry
entries_of [] = []
entries_of (v ∷ vs) = entry_of v ∷ entries_of vs

-- The sizes of the entries removed, and how many they are.
abbrev pub freed : List Event → ℕ
freed [] = 0
freed (removed e ∷ vs) = e.bytes + freed vs
freed (failed e ∷ vs) = freed vs

abbrev pub removals : List Event → ℕ
removals [] = 0
removals (removed e ∷ vs) = suc (removals vs)
removals (failed e ∷ vs) = removals vs

-- The size of the last entry removed.
abbrev pub last_freed : List Event → ℕ
last_freed [] = 0
last_freed (removed e ∷ vs) = if removals vs == 0 then e.bytes else last_freed vs
last_freed (failed e ∷ vs) = last_freed vs

freed-zero : (vs : List Event) → removals vs ≡ 0 → freed vs ≡ 0
freed-zero [] h = refl
freed-zero (removed e ∷ vs) h = absurd (omega arith)
freed-zero (failed e ∷ vs) h = freed-zero vs h

-- The exact sum of the sizes.
abbrev pub total : List Entry → ℕ
total [] = 0
total (e ∷ es) = e.bytes + total es

IoResult-cases : (r : IoResult) → (r ≡ ok) ⊎ ((x : IoError) × (r ≡ err x))
IoResult-cases ok = inl refl
IoResult-cases (err x) = inr (x, refl)

module _ {W : Type 0} (os : Os W) (cap : ℕ) (in_flight : List Text) where
  -- Why the loop ended behind the entries `tried`: nothing was left, or the size is within the cap.
  abbrev pub Ended : List Entry → ℕ → Type 0
  Ended rest running = (rest ≡ []) ⊎ (running ≤ cap)

  -- The entries `xs` are those of `es` that are not protected, in order, up to some point.
  abbrev pub Tries : List Entry → List Entry → ℕ → Type 0
  Tries es xs running =
      (tried : List Entry) × (rest : List Entry) × (es ≡ tried ++ rest)
      × (xs ≡ retain (λ e. not (is_protected in_flight e)) tried)
      × Ended rest running

  Tries-skip :
      (e : Entry) (es xs : List Entry) (running : ℕ)
      → is_protected in_flight e ≡ true
      → Tries es xs running
      → Tries (e ∷ es) xs running
  Tries-skip e es xs running p (tried, rest, split, same, ended) =
      (e ∷ tried, rest, ap (◌∷◌ e) split, rw p same, ended)

  Tries-cons :
      (e : Entry) (es xs : List Entry) (running : ℕ)
      → is_protected in_flight e ≡ false
      → Tries es xs running
      → Tries (e ∷ es) (e ∷ xs) running
  Tries-cons e es xs running p (tried, rest, split, same, ended) =
      (e ∷ tried, rest, ap (◌∷◌ e) split, rw p (ap (◌∷◌ e) same), ended)

  -- The loop tries the entries that are not protected, in order, up to some point: behind it the
  -- size is within the cap, or nothing is left. Every removal, and every one that fails, is of
  -- such an entry.
  pub evict-order :
      (es : List Entry) (running n : ℕ) (w : W)
      → let r = evict os cap in_flight es running n w in Tries es (entries_of r.log) r.running
  unfolding evict
  evict-order [] running n w = ([], [], refl, refl, inl refl)
  evict-order (e ∷ es) running n w =
      let v = (os.remove_dir_all e.path w).1 in
      elim (Bool-cases (ltb cap running)) [
        | inr low ↦ rw low ([], e ∷ es, refl, refl, inr (ground (arith, low)))
        | inl high ↦ elim (Bool-cases (is_protected in_flight e)) [
          | inl kept ↦ rw (high, kept) (Tries-skip e es _ _ kept (evict-order es running n w))
          | inr tried ↦ elim (IoResult-cases (os.remove_dir_all e.path w).0) [
            | inl gone ↦
                rw (high, tried, gone)
                  (Tries-cons e es _ _ tried (evict-order es (running - e.bytes) (n + 1) v))
            | inr (x, stays) ↦
                rw (high, tried, stays) (Tries-cons e es _ _ tried (evict-order es running n v))
          ]
        ]
      ]

  -- Each try came where the size, counted down from `running`, was over the cap.
  abbrev pub AllOver : ℕ → List Event → Type 0
  AllOver running [] = Unit
  AllOver running (removed e ∷ vs) = (cap < running) × AllOver (running - e.bytes) vs
  AllOver running (failed e ∷ vs) = (cap < running) × AllOver running vs

  pub evict-AllOver :
      (es : List Entry) (running n : ℕ) (w : W)
      → AllOver running (evict os cap in_flight es running n w).log
  unfolding evict
  evict-AllOver [] running n w = tt
  evict-AllOver (e ∷ es) running n w =
      let v = (os.remove_dir_all e.path w).1 in
      elim (Bool-cases (ltb cap running)) [
        | inr low ↦ rw low tt
        | inl high ↦ elim (Bool-cases (is_protected in_flight e)) [
          | inl kept ↦ rw (high, kept) (evict-AllOver es running n w)
          | inr tried ↦ elim (IoResult-cases (os.remove_dir_all e.path w).0) [
            | inl gone ↦
                rw (high, tried, gone)
                  (ground (arith, high), evict-AllOver es (running - e.bytes) (n + 1) v)
            | inr (x, stays) ↦
                rw (high, tried, stays) (ground (arith, high), evict-AllOver es running n v)
          ]
        ]
      ]

  -- The size at the end is the size before less what was removed, and the count is that of the
  -- removals, if the size before covers the entries.
  pub evict-accounts :
      (es : List Entry) (running n : ℕ) (w : W)
      → total es ≤ running
      → let r = evict os cap in_flight es running n w in
        (r.running + freed r.log ≡ running) × (r.evicted ≡ n + removals r.log)
  unfolding evict
  evict-accounts [] running n w h = ground arith
  evict-accounts (e ∷ es) running n w h =
      let v = (os.remove_dir_all e.path w).1 in
      ground (
        arith,
        evict-accounts es running n w,
        evict-accounts es (running - e.bytes) (n + 1) v,
        evict-accounts es running n v,
      )

  -- The loop stops in time: without its last removal the size would be over the cap.
  pub evict-needed :
      (es : List Entry) (running n : ℕ) (w : W)
      → total es ≤ running
      → let r = evict os cap in_flight es running n w in
        (removals r.log ≡ 0) ⊎ (cap < r.running + last_freed r.log)
  unfolding evict
  evict-needed [] running n w h = inl refl
  evict-needed (e ∷ es) running n w h =
      let v = (os.remove_dir_all e.path w).1 in
      ground (
        arith,
        evict-needed es running n w,
        evict-needed es (running - e.bytes) (n + 1) v,
        evict-needed es running n v,
        evict-accounts es (running - e.bytes) (n + 1) v,
        freed-zero (evict os cap in_flight es (running - e.bytes) (n + 1) v).log,
      )

  -- A path is safe from an entry's removal: the entry is protected or its removal leaves the path.
  abbrev pub Leaves : Text → Entry → Type 0
  Leaves keep e =
      (is_protected in_flight e ≡ true)
      ⊎ ((v : W) → os.exists keep (os.remove_dir_all e.path v).1 ≡ os.exists keep v)

  pub evict-keeps :
      (keep : Text) (es : List Entry) (running n : ℕ) (w : W)
      → All (Leaves keep) es
      → os.exists keep (evict os cap in_flight es running n w).world ≡ os.exists keep w
  unfolding evict
  evict-keeps keep [] running n w h = refl
  evict-keeps keep (e ∷ es) running n w (leaves, h) =
      let v = (os.remove_dir_all e.path w).1 in
      let later = evict-keeps keep es (running - e.bytes) (n + 1) v h in
      let stays = evict-keeps keep es running n v h in
      elim leaves [
        | inl p ↦ ground (arith, p, evict-keeps keep es running n w h)
        | inr frame ↦ ground (arith, frame w, later, stays, evict-keeps keep es running n w h)
      ]
