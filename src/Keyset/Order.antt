-- ===== src/Keyset/Order.antt =====
-- Keys are ordered strictly and totally, by the instant and then by the id.
use redesigned_disco.Prelude.{String, ◌≡◌, ◌≢◌, true, false, arith}
use redesigned_disco.Models.{Time}
use redesigned_disco.Keyset.{key_before}
use redesigned_disco.Keyset.Texts.{text_before_trans, text_before_asymm, text_before_total}

pub key_before_trans :
    (t u v : Time) (i j k : String)
    → key_before t i u j ≡ true
    → key_before u j v k ≡ true
    → key_before t i v k ≡ true
key_before_trans t u v i j k h h' = ground (arith, text_before_trans i j k)

pub key_before_asymm :
    (t u : Time) (i j : String) → key_before t i u j ≡ true → key_before u j t i ≡ false
key_before_asymm t u i j h = ground (arith, text_before_asymm i j)

pub key_before_total :
    (t u : Time) (i j : String) → key_before t i u j ≡ false → i ≢ j → key_before u j t i ≡ true
key_before_total t u i j h apart = ground (arith, text_before_total i j)
