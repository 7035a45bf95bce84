-- ===== src/Contacts/Literal.antt =====
-- contacts.rs, queue.rs and signal_store.rs, `open`: the key stays inside its SQL literal.
use mesui.Prelude.{
  ℕ, ◌≡◌, ◌≢◌, refl, ap, ◌∙◌, true, false, Option, some, drop, [], ◌∷◌, ◌++◌, Bytes, arith, ◌==◌,
  codes, Bool-cases, inl, inr, All,
}
use mesui.Contacts.{escape, pragma_key}

-- How SQL reads the literals of a text: `read` gives what stands in a literal, after its opening quote,
-- and what follows its closing one. A quote that no other follows closes it, two quotes stand for one, and
-- any other character but NUL, at which SQLite stops to read, stands for itself.
pub record Literals (read : Bytes → Option (Bytes × Bytes)) : Type 0 where
  pub closing : (c : ℕ) (cs : Bytes) → c ≢ 39 → read (39 ∷ c ∷ cs) ≡ some ([], c ∷ cs)
  pub doubled :
      (cs text rest : Bytes)
      → read cs ≡ some (text, rest)
      → read (39 ∷ 39 ∷ cs) ≡ some (39 ∷ text, rest)
  pub plain :
      (c : ℕ) (cs text rest : Bytes)
      → c ≢ 39
      → c ≢ 0
      → read cs ≡ some (text, rest)
      → read (c ∷ cs) ≡ some (c ∷ text, rest)

escape_other : (c : ℕ) (cs : Bytes) → (c == 39) ≡ false → escape (c ∷ cs) ≡ c ∷ escape cs
unfolding escape
escape_other c cs f = rw (f, escape) refl

escape_quote : (c : ℕ) (cs : Bytes) → (c == 39) ≡ true → escape (c ∷ cs) ≡ 39 ∷ 39 ∷ escape cs
unfolding escape
escape_quote c cs t = rw (t, escape) refl

abbrev end : Bytes
end = 39 ∷ 59 ∷ []

module _ (read : Bytes → Option (Bytes × Bytes)) (sql : Literals read) where
  read-escape :
      (key : Bytes) → All (λ c. c ≢ 0) key → read (escape key ++ end) ≡ some (key, 59 ∷ [])
  unfolding escape
  read-escape [] h = sql.closing 59 [] (λ e. ground (arith, e))
  read-escape (c ∷ cs) h = elim (Bool-cases (c == 39)) [
    | inl t ↦
        let same : 39 ≡ c = ground arith in
        ap (λ k. read (k ++ end)) (escape_quote c cs t)
        ∙ sql.doubled (escape cs ++ end) cs (59 ∷ []) (read-escape cs h.1)
        ∙ ap (λ d. some (d ∷ cs, 59 ∷ [])) same
    | inr f ↦
        ap (λ k. read (k ++ end)) (escape_other c cs f)
        ∙ sql.plain c (escape cs ++ end) cs (59 ∷ []) (λ e. ground (arith, e, f)) h.0
            (read-escape cs h.1)
  ]

  -- Whatever the key, if it has no NUL, the literal in the statement that sets it is read back as the key,
  -- and only the final semicolon follows it, so that nothing of the key stands outside the literal. In a
  -- literal, SQL takes two quotes for one, a single one for the end, and what is no quote and no NUL for
  -- itself. It opens with the fourteenth character.
  pub pragma_key_lem :
      (key : Bytes) → All (λ c. c ≢ 0) key → read (drop 14 (pragma_key key)) ≡ some (key, 59 ∷ [])
  unfolding pragma_key codes
  pragma_key_lem key h = read-escape key h
