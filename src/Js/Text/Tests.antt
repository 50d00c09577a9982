-- ===== src/Js/Text/Tests.antt =====
-- `parseInt` at inputs of each form.
use kubernetes_up_running.Base.{◌≡◌, refl}
use kubernetes_up_running.Base.Int.{pos, negsuc}
use kubernetes_up_running.Js.Number.{nan, int}
use kubernetes_up_running.Js.Text.{codes, parse_int, to_decimal, texts}

forms :
    (parse_int (codes "  42abc") ≡ int (pos 42))
    × (parse_int (codes "-7") ≡ int (negsuc 6))
    × (parse_int (codes "0x1f") ≡ int (pos 31))
    × (parse_int (codes "abc") ≡ nan)
    × (parse_int (codes "3.99") ≡ int (pos 3))
    × (parse_int (codes "-") ≡ nan)
    × (parse_int (codes "9007199254740993") ≡ int (pos 9007199254740992))
unfolding texts
forms = (refl, refl, refl, refl, refl, refl, refl)

printed : to_decimal 1024 ≡ codes "1024"
unfolding texts
printed = refl
