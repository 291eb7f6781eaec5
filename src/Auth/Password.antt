-- ===== src/Auth/Password.antt =====
-- services/auth/password.go: hashing a password under a salt, and checking one. argon2, hex and the
-- bytes of a text are parameters, the salt is what the random source gave.
use mogtrade_engine.Base.{
  ℕ, ◌+◌, ◌≡◌, ◌↔◌, ◌∙◌, sym, refl, ap, Bool, true, false, Option, none, some, String, List, [],
  ◌∷◌, ◌++◌, length, length-append, take, if◌then◌else◌, ◌==◌, ◌&&◌, zero, suc, arith,
}

pub record Hashing : Type 0 where
  -- argon2.IDKey with the program's cost, by the bytes of the password and the salt.
  pub derive : List ℕ → List ℕ → List ℕ
  pub hex_encode : List ℕ → String
  pub hex_decode : String → Option (List ℕ)
  pub bytes : String → List ℕ

abbrev pub salt_len : ℕ
salt_len = 16

abbrev pub key_len : ℕ
key_len = 32

unfoldable pub drop : ℕ → List ℕ → List ℕ
drop zero xs = xs
drop (suc n) [] = []
drop (suc n) (x ∷ xs) = drop n xs

-- subtle.ConstantTimeCompare
unfoldable pub compare_hash : List ℕ → List ℕ → Bool
compare_hash [] [] = true
compare_hash [] (y ∷ ys) = false
compare_hash (x ∷ xs) [] = false
compare_hash (x ∷ xs) (y ∷ ys) = (x == y) && compare_hash xs ys

module _ (h : Hashing) where
  -- What is kept of a password is its salt and then its key.
  unfoldable pub verify_key : String → Option (List ℕ) → Bool
  verify_key pass none = false
  verify_key pass (some hash) =
      if length hash == salt_len + key_len
      then compare_hash (h.derive (h.bytes pass) (take salt_len hash)) (drop salt_len hash)
      else false

  unfoldable pub verify_password : String → String → Bool
  verify_password pass existing = verify_key pass (h.hex_decode existing)

  -- `none` where the random source fails.
  unfoldable pub hash_password : Option (List ℕ) → String → Option String
  hash_password none pass = none
  hash_password (some salt) pass = some (h.hex_encode (salt ++ h.derive (h.bytes pass) salt))

  compare_hash_refl : (xs : List ℕ) → compare_hash xs xs ≡ true
  unfolding compare_hash
  compare_hash_refl [] = refl
  compare_hash_refl (x ∷ xs) = ground (arith, compare_hash_refl xs)

  compare_hash-eq : (xs ys : List ℕ) → compare_hash xs ys ≡ true → xs ≡ ys
  unfolding compare_hash
  compare_hash-eq [] [] e = refl
  compare_hash-eq [] (y ∷ ys) e = absurd (ground arith)
  compare_hash-eq (x ∷ xs) [] e = absurd (ground arith)
  compare_hash-eq (x ∷ xs) (y ∷ ys) e = ground (arith, compare_hash-eq xs ys)

  take-append : (xs ys : List ℕ) (n : ℕ) → length xs ≡ n → take n (xs ++ ys) ≡ xs
  take-append [] ys zero e = refl
  take-append [] ys (suc n) e = absurd (omega arith)
  take-append (x ∷ xs) ys zero e = absurd (omega arith)
  take-append (x ∷ xs) ys (suc n) e = ap (λ zs. x ∷ zs) (take-append xs ys n (omega arith))

  drop-append : (xs ys : List ℕ) (n : ℕ) → length xs ≡ n → drop n (xs ++ ys) ≡ ys
  unfolding drop
  drop-append [] ys zero e = refl
  drop-append [] ys (suc n) e = absurd (omega arith)
  drop-append (x ∷ xs) ys zero e = absurd (omega arith)
  drop-append (x ∷ xs) ys (suc n) e = drop-append xs ys n (omega arith)

  accepts :
      (salt key : List ℕ) (other : String)
      → h.hex_decode (h.hex_encode (salt ++ key)) ≡ some (salt ++ key)
      → length key ≡ key_len
      → length salt ≡ salt_len
      → verify_password other (h.hex_encode (salt ++ key))
        ≡ compare_hash (h.derive (h.bytes other) salt) key
  unfolding verify_password verify_key
  accepts salt key other decoded key_length salt_length =
      let whole : length (salt ++ key) ≡ salt_len + key_len =
        omega (arith, length-append salt key) in
      let opened : verify_password other (h.hex_encode (salt ++ key))
          ≡ compare_hash (h.derive (h.bytes other) (take salt_len (salt ++ key)))
              (drop salt_len (salt ++ key)) =
        ap (verify_key other) decoded
        ∙ ap
            (λ n.
              if n == salt_len + key_len
              then compare_hash (h.derive (h.bytes other) (take salt_len (salt ++ key)))
                  (drop salt_len (salt ++ key))
              else false)
            whole in
      opened
      ∙ ap (λ z. compare_hash (h.derive (h.bytes other) z) (drop salt_len (salt ++ key)))
          (take-append salt key salt_len salt_length)
      ∙ ap (λ z. compare_hash (h.derive (h.bytes other) salt) z)
          (drop-append salt key salt_len salt_length)

  -- With hex that decodes what it encoded, a salt of 16 bytes and a key of 32: a hash is accepted
  -- with exactly the passwords that argon2 gives the same key under its salt, the hashed password
  -- among them.
  pub verify_password-hash_password :
      (salt : List ℕ) (pass other hash : String)
      → h.hex_decode (h.hex_encode (salt ++ h.derive (h.bytes pass) salt))
        ≡ some (salt ++ h.derive (h.bytes pass) salt)
      → length (h.derive (h.bytes pass) salt) ≡ key_len
      → length salt ≡ salt_len
      → hash_password (some salt) pass ≡ some hash
      → (verify_password pass hash ≡ true)
        × ((verify_password other hash ≡ true)
            ↔ (h.derive (h.bytes other) salt ≡ h.derive (h.bytes pass) salt))
  unfolding verify_password hash_password
  verify_password-hash_password salt pass other hash decoded key_length salt_length hashed =
      let key : List ℕ = h.derive (h.bytes pass) salt in
      let same : h.hex_encode (salt ++ key) ≡ hash = ground arith in
      let test = λ (word : String). accepts salt key word decoded key_length salt_length in
      rw (← same) (
        test pass ∙ compare_hash_refl key,
        (
          λ e. compare_hash-eq (h.derive (h.bytes other) salt) key (sym (test other) ∙ e),
          λ e. test other ∙ ap (λ k. compare_hash k key) e ∙ compare_hash_refl key,
        ),
      )
