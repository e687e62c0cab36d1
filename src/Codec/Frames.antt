-- ===== src/Codec/Frames.antt =====
-- Coding keeps the frame size, and takes whole frames only (opus_codec.cpp).
use o_walkie.Base.{ℤ, ◌≡◌, refl, List, length, Option-cases, Bool-cases, not, ◌==◌, inl, inr, arith}
use o_walkie.Codec.Opus.{OpusLib}
use o_walkie.Codec.{OpusCodec, encode, encode_with}

module _ (lib : OpusLib) where
  frame_size-encode_with :
      (c : OpusCodec lib) (e : lib.Encoder) (pcm : List ℤ)
      → (encode_with lib c e pcm).1.frame_size ≡ c.frame_size
  unfolding encode_with
  frame_size-encode_with c e pcm = ground arith

  pub frame_size-encode :
      (c : OpusCodec lib) (pcm : List ℤ) → (encode lib c pcm).1.frame_size ≡ c.frame_size
  unfolding encode
  frame_size-encode c pcm = elim (Option-cases c.encoder) [
    | inl e ↦ rw (e, encode) refl
    | inr (x, e) ↦ elim (Bool-cases (not (length pcm == c.frame_size))) [
      | inl f ↦ rw (e, encode) (rw f refl)
      | inr f ↦ rw (e, encode) (rw f (frame_size-encode_with c x pcm))
    ]
  ]
