-- ===== src/NodeState/Fnv.antt =====
-- FNV-1a with 64 bits, `hash/fnv` of the Go library, which internal/controller/nodestate/state.go
-- feeds with texts.
use Prim.Native.Nat.{bit_xor}
use Prim.Native.Char.{code}
use openshift_update_experie.Prelude.{
  ℕ, ◌+◌, ◌*◌, ◌/◌, ◌%◌, ◌^◌, String, List, [], ◌∷◌, if◌then◌else◌, ltb,
}

-- The bytes of a character in UTF-8, given its code point.
abbrev pub utf8 : ℕ → List ℕ
utf8 c =
    if ltb c 0x80
    then c ∷ []
    else if ltb c 0x800
    then (0xC0 + c / 64) ∷ (0x80 + c % 64) ∷ []
    else if ltb c 0x10000
    then (0xE0 + c / 4096) ∷ (0x80 + c / 64 % 64) ∷ (0x80 + c % 64) ∷ []
    else (0xF0 + c / 262144) ∷ (0x80 + c / 4096 % 64) ∷ (0x80 + c / 64 % 64) ∷ (0x80 + c % 64) ∷ []

abbrev pub offset64 : ℕ
offset64 = 14695981039346656037

abbrev pub prime64 : ℕ
prime64 = 1099511628211

unfoldable pub write_bytes : ℕ → List ℕ → ℕ
write_bytes h [] = h
write_bytes h (b ∷ bs) = write_bytes (bit_xor h b * prime64 % 2 ^ 64) bs

-- `h.Write([]byte(s))`.
unfoldable pub write : ℕ → String → ℕ
unfolding write_bytes
write h String.[] = h
write h (String.◌∷◌ c s) = write (write_bytes h (utf8 (code c))) s

unfoldable pub write_all : ℕ → List String → ℕ
write_all h [] = h
write_all h (s ∷ ss) = write_all (write h s) ss
