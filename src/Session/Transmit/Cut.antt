-- ===== src/Session/Transmit/Cut.antt =====
-- How flushTxPcmBuffer of session.cpp cuts a buffer into frames.
use o_walkie.Base.{
  ℕ, ℤ, pos, zero, suc, ◌-◌, ◌≤◌, ◌<◌, ◌≡◌, ◌≢◌, refl, ap, sym, ◌∙◌, max, take_all, drop_all,
  concat, List, [], ◌∷◌, ◌++◌, length, take, drop, replicate, All, length-append, length-replicate,
  length-drop, length-take, take-append-drop, arith,
}
use mathlib.Core.List.{append-nil, append_assoc}
use native.Mathlib.Decide.{dec_le}
use o_walkie.Session.Transmit.{pad}

-- The frames of a buffer: whole ones, and what is left filled up with silence.
unfoldable pub chunks : ℕ → ℕ → List ℤ → List (List ℤ)
chunks zero frame buffer = []
chunks (suc fuel) frame [] = []
chunks (suc fuel) frame (x ∷ xs) =
    take frame (pad frame (x ∷ xs)) ∷ chunks fuel frame (drop frame (pad frame (x ∷ xs)))

abbrev pub frames_of : ℕ → List ℤ → List (List ℤ)
frames_of frame buffer = chunks (suc (length buffer)) frame buffer

-- A buffer that is not empty gives at least one frame.
pub length-pad_le : (frame : ℕ) (x : ℤ) (xs : List ℤ) → frame ≤ length (pad frame (x ∷ xs))
length-pad_le frame x xs = omega (
  arith,
  length-append (x ∷ xs) (replicate (frame - length (x ∷ xs)) (pos 0)),
  length-replicate (frame - length (x ∷ xs)) (pos 0),
)

pub length-drop-pad :
    (frame : ℕ) (x : ℤ) (xs : List ℤ)
    → frame ≢ 0
    → length (drop frame (pad frame (x ∷ xs))) ≤ length xs
length-drop-pad frame x xs h = omega (
  arith,
  length-drop frame (pad frame (x ∷ xs)),
  length-append (x ∷ xs) (replicate (frame - length (x ∷ xs)) (pos 0)),
  length-replicate (frame - length (x ∷ xs)) (pos 0),
)

-- The frames hold the samples of the buffer in their order, followed by less than a frame of
-- silence, and each holds the samples of one frame.
abbrev IsCut : ℕ → List ℤ → List (List ℤ) → Type 0
IsCut frame buffer fs =
    (k : ℕ) × (k < frame)
    × (concat fs ≡ buffer ++ replicate k (pos 0))
    × All (λ f. length f ≡ frame) fs

chunks-nil : (fuel frame : ℕ) → chunks fuel frame [] ≡ []
unfolding chunks
chunks-nil zero frame = refl
chunks-nil (suc fuel) frame = refl

length-pad :
    (frame : ℕ) (x : ℤ) (xs : List ℤ) → length (pad frame (x ∷ xs)) ≡ max frame (length (x ∷ xs))
length-pad frame x xs = omega (
  arith,
  length-append (x ∷ xs) (replicate (frame - length (x ∷ xs)) (pos 0)),
  length-replicate (frame - length (x ∷ xs)) (pos 0),
)

chunks-IsCut :
    (fuel frame : ℕ) (buffer : List ℤ)
    → frame ≢ 0
    → length buffer < fuel
    → IsCut frame buffer (chunks fuel frame buffer)
unfolding chunks
chunks-IsCut zero frame buffer h lt = absurd (omega arith)
chunks-IsCut (suc fuel) frame [] h lt = (0, omega arith, refl, tt)
chunks-IsCut (suc fuel) frame (x ∷ xs) h lt =
    let p = pad frame (x ∷ xs) in
    let first : length (take frame p) ≡ frame =
      omega (arith, length-take frame p, length-pad_le frame x xs) in
    elim (dec_le (length (x ∷ xs)) frame) [
      | yes le ↦
          let fits : length p ≤ frame = omega (arith, length-pad frame x xs) in
          let last : chunks fuel frame (drop frame p) ≡ [] =
            ap (chunks fuel frame) (drop_all frame p fits) ∙ chunks-nil fuel frame in
          (
            frame - length (x ∷ xs),
            omega arith,
            ap (λ l. take frame p ++ concat l) last
                ∙ append-nil (take frame p)
                ∙ take_all frame p fits,
            (first, rw last tt),
          )
      | no gt ↦
          let (k, lk, cut, whole) =
            chunks-IsCut fuel frame (drop frame p) h
              (omega (arith, length-drop-pad frame x xs h)) in
          let bare : frame - length (x ∷ xs) ≡ 0 = omega arith in
          let full : p ≡ x ∷ xs =
            ap (λ n. (x ∷ xs) ++ replicate n (pos 0)) bare ∙ append-nil (x ∷ xs) in
          (
            k,
            lk,
            ap (◌++◌ (take frame p)) cut
                ∙ sym (append_assoc (take frame p) (drop frame p) (replicate k (pos 0)))
                ∙ ap (λ l. l ++ replicate k (pos 0)) (take-append-drop frame p ∙ full),
            (first, whole),
          )
    ]

-- For a frame size above 0, the frames that a flush sends hold the samples of the buffer in their
-- order, followed by less than a frame of silence, and each has the samples of one frame.
frames_of-IsCut :
    (frame : ℕ) (buffer : List ℤ) → frame ≢ 0 → IsCut frame buffer (frames_of frame buffer)
frames_of-IsCut frame buffer h = chunks-IsCut (suc (length buffer)) frame buffer h (omega arith)
