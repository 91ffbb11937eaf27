-- ===== src/Team/Tone.antt =====
-- `toneIndex` of ui/src/views/TeamPage.tsx: a colour for an identifier, by a hash of 32 bits.
use task_man.Prelude.{ℕ, ◌≡◌, sym, ap, ◌∙◌, ◌+◌, ◌*◌, ◌%◌, arith, [], ◌∷◌}
use task_man.Text.{Text}

-- The loop: `h = (h * 31 + id.charCodeAt(i)) >>> 0`.
unfoldable pub hash_from : ℕ → Text → ℕ
hash_from h [] = h
hash_from h (c ∷ s) = hash_from ((h * 31 + c) % 4294967296) s

unfoldable pub tone_index : Text → ℕ
tone_index id = hash_from 0 id % 4

-- The hash with no bound on its size.
abbrev pub exact_hash : ℕ → Text → ℕ
exact_hash h [] = h
exact_hash h (c ∷ s) = exact_hash (h * 31 + c) s

step_mod : (h c : ℕ) → ((h % 4294967296) * 31 + c) % 4294967296 ≡ (h * 31 + c) % 4294967296
step_mod h c = omega arith

mod_four : (n : ℕ) → (n % 4294967296) % 4 ≡ n % 4
mod_four n = omega arith

hash_from-exact_hash :
    (h : ℕ) (s : Text) → hash_from (h % 4294967296) s % 4294967296 ≡ exact_hash h s % 4294967296
unfolding hash_from
hash_from-exact_hash h [] = omega arith
hash_from-exact_hash h (c ∷ s) = rw (step_mod h c) (hash_from-exact_hash (h * 31 + c) s)

-- The colour of an identifier is that of its hash with no bound: that the code keeps 32 bits of it
-- makes no difference.
pub tone_index-exact_hash : (id : Text) → tone_index id ≡ exact_hash 0 id % 4
unfolding tone_index
tone_index-exact_hash id =
    sym (mod_four (hash_from 0 id))
    ∙ (ap (λ h. h % 4) (hash_from-exact_hash 0 id) ∙ mod_four (exact_hash 0 id))
