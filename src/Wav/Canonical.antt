-- ===== src/Wav/Canonical.antt =====
-- The WAV files that AudioEngine.cpp reads: one format chunk and one data chunk.
use o_walkie.Base.{
  ℕ, suc, ℤ, pos, negsuc, ◌-◌, ◌*◌, ◌/◌, ◌%◌, ◌<◌, ◌≡◌, refl, ap, ◌∙◌, true, false, ◌||◌, List, [],
  ◌∷◌, length, drop, take_all, All, some, ltb, arith,
}
use o_walkie.Wav.{
  Found, nothing_found, walk, samples_of, decoded, parse_wav_pcm, read_le_i16, read_le_i32,
}

-- A sample of 16 bits, as its two bytes.
abbrev pub IsSample : ℤ → Type 0
IsSample (pos n) = n < 32768
IsSample (negsuc n) = n < 32768

abbrev pub word : ℤ → ℕ
word (pos n) = n
word (negsuc n) = 65535 - n

abbrev pub encoded : List ℤ → List ℕ
encoded [] = []
encoded (s ∷ rest) = word s % 256 ∷ word s / 256 ∷ encoded rest

abbrev pub put_le : ℕ → List ℕ → List ℕ
put_le x rest = x % 256 ∷ (x / 256) % 256 ∷ (x / 65536) % 256 ∷ (x / 16777216) % 256 ∷ rest

length-encoded : (samples : List ℤ) → length (encoded samples) ≡ 2 * length samples
length-encoded [] = refl
length-encoded (s ∷ rest) = omega (arith, length-encoded rest)

read_le_i16-word : (s : ℤ) → IsSample s → read_le_i16 (word s % 256 ∷ word s / 256 ∷ []) ≡ s
read_le_i16-word (pos n) h = ground arith
read_le_i16-word (negsuc n) h = ground arith

samples_of-encoded :
    (samples : List ℤ) → All IsSample samples → samples_of (encoded samples) ≡ samples
unfolding samples_of
samples_of-encoded [] h = refl
samples_of-encoded (s ∷ rest) h =
    ap (λ x. x ∷ samples_of (encoded rest)) (read_le_i16-word s h.0)
    ∙ ap (λ l. s ∷ l) (samples_of-encoded rest h.1)

read_le_i32-put_le : (x : ℕ) (rest : List ℕ) → x < 2147483648 → read_le_i32 (put_le x rest) ≡ pos x
read_le_i32-put_le x rest h = ground arith

abbrev pub data_chunk : List ℤ → List ℕ
data_chunk samples = b'd' ∷ b'a' ∷ b't' ∷ b'a' ∷ put_le (2 * length samples) (encoded samples)

walk-data_chunk :
    (fuel : ℕ) (samples : List ℤ) (found : Found)
    → 2 * length samples < 2147483648
    → walk (suc fuel) (data_chunk samples) found ≡ some (record found { payload = encoded samples })
unfolding walk
walk-data_chunk fuel samples found h =
    let read = read_le_i32-put_le (2 * length samples) (encoded samples) h in
    let long = length-encoded samples in
    let fits : (ltb (length (data_chunk samples)) 8
          || ltb (length (encoded samples)) (2 * length samples))
        ≡ false =
      ground (arith, long) in
    rw (read, walk)
      (rw fits (
        ap (λ l. some (record found { payload = l }))
          (take_all (2 * length samples) (encoded samples) (omega (arith, long)))))

-- A format chunk: mono, 16 bits, with a rate and a byte rate.
abbrev pub format_chunk : ℕ → ℕ → List ℕ → List ℕ
format_chunk rate byte_rate rest =
    b'f'
    ∷ b'm'
    ∷ b't'
    ∷ b' '
    ∷ 16
    ∷ 0
    ∷ 0
    ∷ 0
    ∷ 1
    ∷ 0
    ∷ 1
    ∷ 0
    ∷ put_le rate (put_le byte_rate (2 ∷ 0 ∷ 16 ∷ 0 ∷ rest))

walk-format_chunk :
    (fuel rate byte_rate : ℕ) (rest : List ℕ) (found : Found)
    → rate < 2147483648
    → walk (suc fuel) (format_chunk rate byte_rate rest) found
      ≡ walk fuel rest (record found { channels = pos 1; sample_rate = pos rate; bits = pos 16 })
unfolding walk
walk-format_chunk fuel rate byte_rate rest found h =
    let read = read_le_i32-put_le rate (put_le byte_rate (2 ∷ 0 ∷ 16 ∷ 0 ∷ rest)) h in
    let all = format_chunk rate byte_rate rest in
    let fits : (ltb (length all) 8 || ltb (length (drop 8 all)) 16) ≡ false = ground arith in
    rw (read, walk) (rw fits refl)

decoded-encoded :
    (rate : ℕ) (samples : List ℤ)
    → All IsSample samples
    → 0 < rate
    → 0 < length samples
    → decoded (
        some (record {
          sample_rate = pos rate;
          channels = pos 1;
          bits = pos 16;
          payload = encoded samples;
        }))
      ≡ record { samples = samples; sample_rate = pos rate }
unfolding decoded
decoded-encoded rate samples v p n =
    let positive : ltb 0 rate ≡ true = ground (arith, p) in
    let filled : ltb (length (encoded samples)) 2 ≡ false =
      ground (arith, length-encoded samples, n) in
    rw (positive, filled, decoded)
      (ap (λ l. record { samples = l; sample_rate = pos rate }) (samples_of-encoded samples v))

-- A file with these two chunks.
abbrev pub canonical : ℕ → ℕ → ℕ → List ℤ → List ℕ
canonical riff_size rate byte_rate samples =
    b'R'
    ∷ b'I'
    ∷ b'F'
    ∷ b'F'
    ∷ put_le riff_size
        (b'W' ∷ b'A' ∷ b'V' ∷ b'E' ∷ format_chunk rate byte_rate (data_chunk samples))

-- A file of a format chunk for mono, 16 bits and a positive rate, and a data chunk of samples, one
-- at least, is read as these samples at this rate, if the rate and the size of the data fit an
-- int32_t.
pub parse_wav_pcm-canonical :
    (riff_size rate byte_rate : ℕ) (samples : List ℤ)
    → All IsSample samples
    → 0 < rate
    → rate < 2147483648
    → 0 < length samples
    → 2 * length samples < 2147483648
    → parse_wav_pcm (canonical riff_size rate byte_rate samples)
      ≡ record { samples = samples; sample_rate = pos rate }
unfolding parse_wav_pcm
parse_wav_pcm-canonical riff_size rate byte_rate samples v p r n m =
    let bytes = canonical riff_size rate byte_rate samples in
    let found : Found = record nothing_found {
      channels = pos 1;
      sample_rate = pos rate;
      bits = pos 16;
    } in
    let walked =
      walk-format_chunk (length bytes) rate byte_rate (data_chunk samples) nothing_found r
      ∙ walk-data_chunk (length (drop 1 bytes)) samples found m in
    let long : ltb (length bytes) 44 ≡ false = ground (arith, length-encoded samples, n) in
    rw (long, walked, parse_wav_pcm) (decoded-encoded rate samples v p n)
