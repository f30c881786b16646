-- ===== src/Artifact/Download.antt =====
-- What a download that succeeds has put on disk (crates/supervisor-core/src/artifact_fetch.rs).
use decent_render.Prelude.{
  ℕ, ◌+◌, ◌≤◌, ◌≡◌, refl, sym, ap, ◌∙◌, ◌⊎◌, inl, inr, false, List, [], ◌∷◌, ◌++◌, Option, some,
  Text, ltb, length, length-append, append_assoc, append-nil, All, arith, Bool-cases,
}
use decent_render.Os.{IoError, err, IoResult-cases, ok, pass}
use decent_render.Artifact.{
  Net, Delivery, chunk, body_failed, stalled, Response, request_failed, non_2xx, answered,
  hex_lower, receive, receive_into, is_over, download_to_file_hashed_capped,
}

-- The bytes that a body delivers.
pub body_bytes : List Delivery → Text
body_bytes [] = []
body_bytes (chunk c ∷ body) = c ++ body_bytes body
body_bytes (body_failed ∷ body) = body_bytes body
body_bytes (stalled ∷ body) = body_bytes body

-- What the stream yields is a chunk.
abbrev pub IsChunk : Delivery → Type 0
IsChunk d = (c : Text) × (d ≡ chunk c)

Response-cases :
    (r : Response)
    → ((r ≡ request_failed) ⊎ (r ≡ non_2xx))
      ⊎ ((len : Option ℕ) × (body : List Delivery) × (r ≡ answered len body))
Response-cases request_failed = inl (inl refl)
Response-cases non_2xx = inl (inr refl)
Response-cases (answered len body) = inr (len, body, refl)

module _ {W : Type 0} (net : Net W) where
  open net use {send, sha256, create_file, append, flush}

  -- The documented behaviour of tokio's file: a file that is created was given nothing, a chunk that is
  -- written is given to it behind those before, and a flush without an error leaves on disk what the
  -- file was given.
  pub record Flushes (given on_disk : Text → W → Text) : Type 0 where
    pub created : (p : Text) (w : W) → (create_file p w).0 ≡ ok → given p (create_file p w).1 ≡ []
    pub appended :
        (p c : Text) (w : W) → (append p c w).0 ≡ ok → given p (append p c w).1 ≡ given p w ++ c
    pub flushed : (p : Text) (w : W) → (flush p w).0 ≡ ok → on_disk p (flush p w).1 ≡ given p w

  -- The world once the chunks of a body are written.
  pub stored : Text → List Delivery → W → W
  stored dest [] w = w
  stored dest (chunk c ∷ body) w = stored dest body (append dest c w).1
  stored dest (body_failed ∷ body) w = stored dest body w
  stored dest (stalled ∷ body) w = stored dest body w

  -- A digest that was returned: the server's body came whole and within the ceiling, the digest is
  -- its, and the file was flushed; if the flush had no error the body is on disk.
  abbrev pub IsDownloaded : (Text → W → Text) → Text → Text → ℕ → Text → W → W → Type 0
  IsDownloaded on_disk get_url dest max_bytes sha w after =
      (len : Option ℕ) × (body : List Delivery) × ((send get_url w).0 ≡ answered len body)
      × All IsChunk body
      × (sha ≡ hex_lower (sha256 (body_bytes body)))
      × (length (body_bytes body) ≤ max_bytes)
      × (let last = stored dest body (create_file dest (send get_url w).1).1 in
          (after ≡ (flush dest last).1)
          × (((e : IoError) × ((flush dest last).0 ≡ err e))
              ⊎ (on_disk dest after ≡ body_bytes body)))

  module _ (given on_disk : Text → W → Text) (a : Flushes given on_disk) where
    receive_lem :
        (kind dest : Text) (max_bytes : ℕ) (body : List Delivery) (written : ℕ) (hashed : Text)
        (w : W) (sha : Text)
        → written ≡ length hashed
        → given dest w ≡ hashed
        → written ≤ max_bytes
        → (receive net kind dest max_bytes body written hashed w).0 ≡ pass sha
        → All IsChunk body
          × (sha ≡ hex_lower (sha256 (hashed ++ body_bytes body)))
          × (given dest (stored dest body w) ≡ hashed ++ body_bytes body)
          × (length (hashed ++ body_bytes body) ≤ max_bytes)
          × ((receive net kind dest max_bytes body written hashed w).1
              ≡ (flush dest (stored dest body w)).1)
    unfolding receive body_bytes stored
    receive_lem kind dest max_bytes [] written hashed w sha n d b h = (
      tt,
      ground (arith, h, append-nil hashed),
      ground (arith, d, append-nil hashed),
      ground (arith, n, b, append-nil hashed),
      refl,
    )
    receive_lem kind dest max_bytes (stalled ∷ body) written hashed w sha n d b h = absurd (cc h)
    receive_lem kind dest max_bytes (body_failed ∷ body) written hashed w sha n d b h =
        absurd (cc h)
    receive_lem kind dest max_bytes (chunk c ∷ body) written hashed w sha n d b h =
        elim (Bool-cases (ltb max_bytes (written + length c))) [
          | inl over ↦ absurd (ground (arith, h, over))
          | inr fits ↦ elim (IoResult-cases (append dest c w).0) [
            | inr (e, refused) ↦ absurd (ground (arith, h, fits, refused))
            | inl taken ↦
                let (chunks, digest, laid, bound, end) =
                  receive_lem kind dest max_bytes body (written + length c) (hashed ++ c)
                    (append dest c w).1 sha (omega (arith, n, length-append hashed c))
                    (a.appended dest c w taken ∙ ap (λ x. x ++ c) d) (ground (arith, fits))
                    (ground (arith, h, fits, taken)) in
                let same = append_assoc hashed c (body_bytes body) in
                (
                  ((c, refl), chunks),
                  rw (← same) digest,
                  rw (← same) laid,
                  rw (← same) bound,
                  ground (arith, fits, taken, end),
                )
          ]
        ]

    receive_into_lem :
        (kind dest : Text) (max_bytes : ℕ) (body : List Delivery) (w : W) (sha : Text)
        → (receive_into net kind dest max_bytes body w).0 ≡ pass sha
        → All IsChunk body
          × (sha ≡ hex_lower (sha256 (body_bytes body)))
          × (given dest (stored dest body (create_file dest w).1) ≡ body_bytes body)
          × (length (body_bytes body) ≤ max_bytes)
          × ((receive_into net kind dest max_bytes body w).1
              ≡ (flush dest (stored dest body (create_file dest w).1)).1)
    unfolding receive_into
    receive_into_lem kind dest max_bytes body w sha h =
        elim (IoResult-cases (create_file dest w).0) [
          | inr (e, refused) ↦ absurd (ground (arith, h, refused))
          | inl made ↦
              rw (receive_into, made)
                (receive_lem kind dest max_bytes body 0 [] (create_file dest w).1 sha refl
                  (a.created dest w made) (omega arith) (ground (arith, h, made)))
        ]

    -- A download that succeeds returns the digest of the whole body that the server sent, all of it
    -- chunks without an error or a stall between them and no more than the ceiling; and either the flush
    -- of the file at its end failed, which the code does not look at, or exactly that body is on disk. The
    -- file calls are assumed to behave as tokio documents them.
    pub download_hashes_disk :
        (get_url dest kind : Text) (max_bytes : ℕ) (w : W) (sha : Text)
        → (download_to_file_hashed_capped net get_url dest kind max_bytes w).0 ≡ pass sha
        → IsDownloaded on_disk get_url dest max_bytes sha w
            (download_to_file_hashed_capped net get_url dest kind max_bytes w).1
    unfolding download_to_file_hashed_capped
    download_hashes_disk get_url dest kind max_bytes w sha h =
        elim (Response-cases (send get_url w).0) [
          | inl (inl refused) ↦ absurd (ground (arith, h, refused))
          | inl (inr refused) ↦ absurd (ground (arith, h, refused))
          | inr (len, body, e) ↦ elim (Bool-cases (is_over net len max_bytes)) [
            | inl over ↦ absurd (ground (arith, h, e, over))
            | inr within ↦
                let last = stored dest body (create_file dest (send get_url w).1).1 in
                let (chunks, digest, all, bound, end) =
                  receive_into_lem kind dest max_bytes body (send get_url w).1 sha
                    (ground (arith, h, e, within)) in
                let end' : (download_to_file_hashed_capped net get_url dest kind max_bytes w).1
                    ≡ (flush dest last).1 =
                  ground (arith, e, within, end) in
                (
                  len,
                  body,
                  e,
                  chunks,
                  digest,
                  bound,
                  (
                    end',
                    elim (IoResult-cases (flush dest last).0) [
                      | inr lost ↦ inl lost
                      | inl kept ↦ inr (ap (on_disk dest) end' ∙ a.flushed dest last kept ∙ all)
                    ],
                  ),
                )
          ]
        ]

  receive_completes :
      (kind dest : Text) (max_bytes : ℕ) (body : List Delivery) (written : ℕ) (hashed : Text)
      (w : W)
      → ((c : Text) (v : W) → (append dest c v).0 ≡ ok)
      → All IsChunk body
      → written + length (body_bytes body) ≤ max_bytes
      → (receive net kind dest max_bytes body written hashed w).0
        ≡ pass (hex_lower (sha256 (hashed ++ body_bytes body)))
  unfolding receive body_bytes
  receive_completes kind dest max_bytes [] written hashed w writes all fits =
      ap (λ x. pass (hex_lower (sha256 x))) (sym (append-nil hashed))
  receive_completes kind dest max_bytes (body_failed ∷ body) written hashed w writes all fits =
      absurd (cc (all.0.1))
  receive_completes kind dest max_bytes (stalled ∷ body) written hashed w writes all fits =
      absurd (cc (all.0.1))
  receive_completes kind dest max_bytes (chunk c ∷ body) written hashed w writes all fits =
      let total = length-append c (body_bytes body) in
      let within : ltb max_bytes (written + length c) ≡ false = ground (arith, fits, total) in
      rw (within, writes c w, ← append_assoc hashed c (body_bytes body))
        (receive_completes kind dest max_bytes body (written + length c) (hashed ++ c)
          (append dest c w).1 writes all.1 (omega (arith, fits, total)))

  -- An honest artifact is accepted: if the server answers, within the ceiling and without a gap or an
  -- error, and the file can be created and written, then the download ends with the digest of the body.
  pub download_completes :
      (get_url dest kind : Text) (max_bytes : ℕ) (body : List Delivery) (w : W)
      → (send get_url w).0 ≡ answered (some (length (body_bytes body))) body
      → All IsChunk body
      → length (body_bytes body) ≤ max_bytes
      → ((v : W) → (create_file dest v).0 ≡ ok)
      → ((c : Text) (v : W) → (append dest c v).0 ≡ ok)
      → (download_to_file_hashed_capped net get_url dest kind max_bytes w).0
        ≡ pass (hex_lower (sha256 (body_bytes body)))
  unfolding download_to_file_hashed_capped is_over receive_into
  download_completes get_url dest kind max_bytes body w answer all fits creates writes =
      let within : ltb max_bytes (length (body_bytes body)) ≡ false = ground (arith, fits) in
      rw (download_to_file_hashed_capped, answer, within, receive_into, creates (send get_url w).1)
        (receive_completes kind dest max_bytes body 0 [] (create_file dest (send get_url w).1).1
          writes all (omega (arith, fits)))
