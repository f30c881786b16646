-- ===== src/Runner/Browser/Contained.antt =====
-- The browser's executable stays inside its artifact
-- (`browser_executable_in` of crates/supervisor-core/src/runner.rs).
use decent_render.Prelude.{
  ◌≡◌, ◌≢◌, refl, inl, inr, true, false, List, [], ◌∷◌, ◌++◌, Text, codes, text_eq, text_eq_iff,
  arith, Option-cases, any, All, split, split-append,
}
use decent_render.Os.{pass, join, is_separated}
use decent_render.Runner.Host.{Host}
use decent_render.Runner.Browser.{is_absolute, has_parent_dir, browser_executable_in}

any-All :
    (parts : List Text)
    → any (λ part. text_eq part (codes "..")) parts ≡ false
    → All (λ part. part ≢ codes "..") parts
any-All [] h = tt
any-All (part ∷ parts) h =
    (ground (arith, text_eq_iff part (codes "..")), ground (arith, any-All parts))

join_relative :
    (dir relative : Text)
    → is_separated dir ≡ false
    → is_absolute relative ≡ false
    → join dir relative ≡ dir ++ b'/' ∷ relative
unfolding join is_absolute
join_relative dir [] s h = rw s refl
join_relative dir (c ∷ relative) s h = ground (arith, s, h)

module _ {W : Type 0} (host : Host W) where
  open host use {os}

  -- The tests that a manifest passed.
  manifest_tests :
      (dir path : Text) (w : W)
      → browser_executable_in host dir w ≡ pass path
      → (relative : Text) × (relative ≢ [])
        × (is_absolute relative ≡ false)
        × (has_parent_dir relative ≡ false)
        × (os.exists path w ≡ true)
        × (path ≡ join dir relative)
  unfolding browser_executable_in
  manifest_tests dir path w h =
      elim (Option-cases (os.read_to_string (join dir (codes "executable")) w)) [
        | inl absent ↦ absurd (ground (arith, h, absent))
        | inr (contents, e) ↦
            let empty = text_eq_iff (os.trim contents) [] in
            (
              os.trim contents,
              ground (arith, h, e, empty),
              ground (arith, h, e, empty),
              ground (arith, h, e, empty),
              ground (arith, h, e, empty),
              ground (arith, h, e, empty),
            )
      ]

  -- A browser that resolves exists, and its path is that of the artifact with a relative part behind
  -- it that never steps up: the parts of the path between the separators are the artifact's, then those
  -- of the manifest, none of which is `..`; the artifact's path ends in no separator.
  pub browser_executable_in_contained :
      (dir path : Text) (w : W)
      → is_separated dir ≡ false
      → browser_executable_in host dir w ≡ pass path
      → (os.exists path w ≡ true)
        × (relative : Text) × (relative ≢ [])
        × (split b'/' path ≡ split b'/' dir ++ split b'/' relative)
        × All (λ part. part ≢ codes "..") (split b'/' relative)
  unfolding has_parent_dir
  browser_executable_in_contained dir path w s h =
      let (relative, filled, inside, level, there, e) = manifest_tests dir path w h in
      (
        there,
        relative,
        filled,
        rw (e, join_relative dir relative s inside) (split-append b'/' dir relative),
        any-All (split b'/' relative) level,
      )
