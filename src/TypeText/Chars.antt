-- ===== src/TypeText/Chars.antt =====
-- Texts as lists of code points, with the operations of `str` that src/core/corsa_core/src/utils uses.
use corsa_bind.Common.{
  ℕ, ◌==◌, Eq, nat_eq, nat_beq_iff, ◌↔◌, ◌≡◌, refl, arith, Bool, true, false, ◌&&◌, ◌||◌, String,
  codes, List, [], ◌∷◌, leb, if◌then◌else◌,
}

abbrev pub Chars : Type 0
Chars = List ℕ

-- `char::is_whitespace`, by the code points that Unicode gives the property White_Space.
unfoldable pub is_whitespace : ℕ → Bool
is_whitespace c =
    (leb 9 c && leb c 13)
    || ((c == 32)
        || ((c == 133)
            || ((c == 160)
                || ((c == 5760)
                    || ((leb 8192 c && leb c 8202)
                        || ((c == 8232)
                            || ((c == 8233) || ((c == 8239) || ((c == 8287) || (c == 12288))))))))))

abbrev pub trim_start : Chars → Chars
trim_start [] = []
trim_start (c ∷ cs) = if is_whitespace c then trim_start cs else c ∷ cs

-- A character before a text that was trimmed at its end.
abbrev pub before_trimmed : ℕ → Chars → Chars
before_trimmed c [] = if is_whitespace c then [] else c ∷ []
before_trimmed c (d ∷ ds) = c ∷ d ∷ ds

abbrev pub trim_end : Chars → Chars
trim_end [] = []
trim_end (c ∷ cs) = before_trimmed c (trim_end cs)

abbrev pub trim : Chars → Chars
trim cs = trim_end (trim_start cs)

abbrev pub is_empty : Chars → Bool
is_empty [] = true
is_empty (c ∷ cs) = false

abbrev pub chars_beq : Chars → Chars → Bool
chars_beq [] [] = true
chars_beq (c ∷ cs) (d ∷ ds) = (c == d) && chars_beq cs ds
chars_beq _ _ = false

pub chars_beq_iff : (cs ds : Chars) → (chars_beq cs ds ≡ true) ↔ (cs ≡ ds)
chars_beq_iff [] [] = (λ h. refl, λ h. refl)
chars_beq_iff [] (d ∷ ds) = (λ h. absurd (cc), λ h. absurd (cc))
chars_beq_iff (c ∷ cs) [] = (λ h. absurd (cc), λ h. absurd (cc))
chars_beq_iff (c ∷ cs) (d ∷ ds) = ground (arith, nat_beq_iff c d, chars_beq_iff cs ds)

instance abbrev pub chars_eq : Eq Chars
chars_eq = record { beq_iff = chars_beq_iff; beq = chars_beq }

-- A comparison with a literal.
abbrev pub is_text : String → Chars → Bool
is_text s cs = chars_beq cs (codes s)

abbrev pub starts_with : Chars → Chars → Bool
starts_with [] cs = true
starts_with (p ∷ ps) [] = false
starts_with (p ∷ ps) (c ∷ cs) = (p == c) && starts_with ps cs

abbrev pub ends_with : Chars → Chars → Bool
ends_with suffix [] = is_empty suffix
ends_with suffix (c ∷ cs) = if chars_beq suffix (c ∷ cs) then true else ends_with suffix cs

abbrev pub has_prefix : String → Chars → Bool
has_prefix s cs = starts_with (codes s) cs

abbrev pub has_suffix : String → Chars → Bool
has_suffix s cs = ends_with (codes s) cs
