-- ===== src/Tests/Pages.antt =====
-- Cursors in plain texts.
use redesigned_disco.Prelude.{ℕ, zero, suc, String, false, ◌≡◌, refl, some, ap}
use redesigned_disco.Models.{Time}
use redesigned_disco.Endpoints.Cursors.{CursorText, has_bar}

-- Instants in tally marks, and bytes as they are.
abbrev tally_time : Time → String
tally_time zero = String.[]
tally_time (suc n) = String.◌∷◌ "i" (tally_time n)

abbrev of_tally_time : String → ℕ
of_tally_time String.[] = zero
of_tally_time (String.◌∷◌ c s) = suc (of_tally_time s)

pub reads_back : (n : ℕ) → of_tally_time (tally_time n) ≡ n
reads_back zero = refl
reads_back (suc n) = ap suc (reads_back n)

pub no_bars : (at : Time) → has_bar (tally_time at) ≡ false
no_bars zero = refl
no_bars (suc n) = no_bars n

abbrev pub plain_text : CursorText
plain_text = record {
  encode_bytes = λ s. s;
  decode_bytes = λ s. some s;
  format = tally_time;
  parse = λ s. some (of_tally_time s);
  decode-encode = λ raw. refl;
  encode_some = λ raw h. h;
  parse-format = λ at. ap (λ n. some n) (reads_back at);
  no_bar = no_bars;
}
