-- ===== src/Wav/Layout.antt =====
-- The header that `rsnd_send_header_info` of src/librsound/librsound.c builds by stores at
-- offsets, as one little-endian RIFF header.
use rsound.Base.{
  ℕ, ◌*◌, ◌%◌, ◌^◌, ◌≡◌, refl, Bool, true, false, List, [], ◌∷◌, ◌++◌, arith, ap, ◌∙◌,
}
use mathlib.Core.Path.{fun_ext}
use rsound.Endian.{is_little_endian, store16, store32}
use rsound.Endian.Laws.{store-swap}
use rsound.Format.{code, resolve}
use rsound.Wav.Encode.{
  Params, word16, word32, stores, samplesize_u32, pcm_tag, riff_text, wave_text, fmt_text,
  data_text, header_of,
}

-- A word of two or four bytes, the lowest first.
abbrev pub le16 : ℕ → List ℕ
le16 = store16 true

abbrev pub le32 : ℕ → List ℕ
le32 = store32 true

-- The header as the format has it: the fields in order, with nothing for the sizes of the chunks
-- and the sample format in the last two bytes.
abbrev pub riff_header : Bool → Params → List ℕ
riff_header little rd =
    let size = samplesize_u32 rd.format in
    riff_text
    ++ (le32 0
        ++ (wave_text
            ++ (fmt_text
                ++ (le32 16
                    ++ (le16 (pcm_tag rd.format % 2 ^ 16)
                        ++ (le16 (rd.channels % 2 ^ 16)
                            ++ (le32 (rd.rate % 2 ^ 32)
                                ++ (le32 (rd.rate * rd.channels * size % 2 ^ 32)
                                    ++ (le16 (rd.channels * size % 2 ^ 16)
                                        ++ (le16 (8 * size % 2 ^ 16)
                                            ++ (data_text
                                                ++ (0
                                                    ∷ 0
                                                    ∷ le16 (
                                                        code (resolve little rd.format)
                                                        % 2 ^ 16)))))))))))))

wire16 : (little : Bool) (x : ℕ) → word16 little x ≡ le16 (x % 2 ^ 16)
unfolding is_little_endian
wire16 true x = refl
wire16 false x = (store-swap false (x % 2 ^ 16) 0 (omega arith) (omega arith)).0

wire32 : (little : Bool) (x : ℕ) → word32 little x ≡ le32 (x % 2 ^ 32)
unfolding is_little_endian
wire32 true x = refl
wire32 false x = (store-swap false 0 (x % 2 ^ 32) (omega arith) (omega arith)).1

wire_zero : (little : Bool) → store32 little 0 ≡ 0 ∷ 0 ∷ 0 ∷ 0 ∷ []
wire_zero true = refl
wire_zero false = refl

-- The header does not depend on the byte order of the client, but for what a native-endian format
-- stands for: the stores at offsets make one RIFF header with all words little-endian.
pub header_of-eq-riff_header :
    (little : Bool) (rd : Params) → header_of little rd ≡ riff_header little rd
unfolding header_of
header_of-eq-riff_header little rd =
    ap (λ w. stores w (word32 little) (store32 little 0) rd (resolve little rd.format))
      (fun_ext (wire16 little))
    ∙ ap (λ w. stores (λ x. le16 (x % 2 ^ 16)) w (store32 little 0) rd (resolve little rd.format))
        (fun_ext (wire32 little))
    ∙ ap
        (λ z.
          stores (λ x. le16 (x % 2 ^ 16)) (λ x. le32 (x % 2 ^ 32)) z rd (resolve little rd.format))
        (wire_zero little)
