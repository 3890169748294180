-- ===== src/Encoder/Tests.antt =====
-- Runs of the encoders.
use nodepp.Prelude.{ℕ, ◌<◌, ◌≡◌, All, List, [], ◌∷◌, arith}
use nodepp.Encoder.Pac
use nodepp.Encoder.Base64
use nodepp.Encoder.Base64.RoundTrip.{base64_btoa-atob}

abbrev word : List ℕ
word = 0x12 ∷ 0x34 ∷ 0x56 ∷ 0x78 ∷ []

word-Bytes : All (λ x. x < 256) word
word-Bytes = (omega arith, (omega arith, (omega arith, (omega arith, tt))))

base64_btoa-atob_example : Base64.btoa (Base64.atob word) ≡ word
base64_btoa-atob_example = base64_btoa-atob word word-Bytes

pac_btoa-atob_example : Pac.btoa 0x4010 (Pac.atob 0x4010 0x7fff1234 0x99) 0x99 ≡ 0x7fff1234
pac_btoa-atob_example = Pac.pac_btoa-atob 0x4010 0x7fff1234 0x99 (omega arith)

abbrev signed : ℕ
signed = Pac.atob 0x4010 0x7fff1234 0x99

pac_atob-btoa_example : Pac.atob 0x4010 (Pac.btoa 0x4010 signed 0x99) 0x99 ≡ signed
pac_atob-btoa_example =
    Pac.pac_atob-btoa 0x4010 signed 0x99 (Pac.atob-lt 0x4010 0x7fff1234 0x99)
      (λ e. omega (arith, e, Pac.pac_btoa-atob 0x4010 0x7fff1234 0x99 (omega arith)))
