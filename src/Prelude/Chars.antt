-- ===== src/Prelude/Chars.antt =====
-- Tests on characters, as code points.
use Prim.Native.Nat.{ℕ}
use mathlib.Core.Bool.{Bool, ◌||◌, ◌&&◌}
use poqi.Prelude.Tests.{leb, ◌==◌}

-- `char::is_whitespace`: the Unicode property White_Space
unfoldable pub is_whitespace : ℕ → Bool
is_whitespace c =
    (leb 0x09 c && leb c 0x0D)
    || ((c == 0x20)
        || ((c == 0x85)
            || ((c == 0xA0)
                || ((c == 0x1680)
                    || ((leb 0x2000 c && leb c 0x200A)
                        || ((c == 0x2028)
                            || ((c == 0x2029)
                                || ((c == 0x202F) || ((c == 0x205F) || (c == 0x3000))))))))))
