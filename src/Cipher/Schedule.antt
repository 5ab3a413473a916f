-- ===== src/Cipher/Schedule.antt =====
-- The key schedule (`prepareKey`, `skipFor`) of shared/Encryption/rc4_cipher.h and its table.
use rzemulator.Base.{
  ℕ, zero, suc, ◌+◌, ◌%◌, ◌≤◌, ◌<◌, ◌≡◌, refl, sym, ◌∙◌, true, false, none, some, List, [], ◌∷◌,
  ◌++◌, length, get_or, set, ◌==◌, leb, if◌then◌else◌, arith, get_elem?-some, Bool-cases, inl, inr,
}
use rzemulator.Base.Counts.{
  count, exchange, count-exchange, length-exchange, iota, count-iota, length-iota,
}
use mathlib.Core.List.{append_assoc}
use rzemulator.Cipher.{
  State, read_key, fill_identity, expand_key, mix_key, advance, skip_for, is_empty_key, prepare_key,
  code_block,
}
use rzemulator.Cipher.Stream.{code_block-skip_for}

-- Each of the 256 bytes stands in the table once.
pub record IsTable (s : List ℕ) : Type 0 where
  pub full : length s ≡ 256
  pub once : (a : ℕ) → a < 256 → count a s ≡ 1

pub record IsReady (st : State) : Type 0 where
  pub x_byte : st.x < 256
  pub y_byte : st.y < 256
  pub table : IsTable st.s

exchange-IsTable : (s : List ℕ) (i j : ℕ) → i < 256 → j < 256 → IsTable s → IsTable (exchange s i j)
exchange-IsTable s i j p q t = record {
  full = length-exchange s i j ∙ t.full;
  once = λ a h. count-exchange a s i j (omega (arith, t.full)) (omega (arith, t.full)) ∙ t.once a h;
}

-- The round keeps the table, so a table in use never loses a byte.
pub advance-IsReady : (st : State) → IsReady st → IsReady (advance st)
unfolding advance
advance-IsReady st r = record {
  x_byte = omega arith;
  y_byte = omega arith;
  table =
      exchange-IsTable st.s ((st.x + 1) % 256) ((st.y + get_or st.s ((st.x + 1) % 256) 0) % 256)
        (omega arith) (omega arith) r.table;
}

pub skip_for-IsReady : (st : State) (len : ℕ) → IsReady st → IsReady (skip_for st len)
unfolding skip_for
skip_for-IsReady st zero r = r
skip_for-IsReady st (suc len) r = skip_for-IsReady (advance st) len (advance-IsReady st r)

set_between :
    (left right : List ℕ) (x v : ℕ) (i : ℕ)
    → i ≡ length left
    → set (left ++ x ∷ right) i v ≡ left ++ v ∷ right
set_between [] right x v zero e = refl
set_between [] right x v (suc i) e = absurd (omega arith)
set_between (a ∷ left) right x v zero e = absurd (omega arith)
set_between (a ∷ left) right x v (suc i) e =
    ground (arith, set_between left right x v i (omega arith))

length-snoc : (left : List ℕ) (x : ℕ) → length (left ++ x ∷ []) ≡ length left + 1
length-snoc [] x = refl
length-snoc (a ∷ left) x = omega (arith, length-snoc left x)

fill_identity_from :
    (left : ℕ) (i : ℕ) (before s : List ℕ)
    → i ≡ length before
    → left ≡ length s
    → fill_identity left i (before ++ s) ≡ before ++ iota left i
unfolding fill_identity iota
fill_identity_from zero i before [] e h = refl
fill_identity_from zero i before (x ∷ s) e h = absurd (omega arith)
fill_identity_from (suc left) i before [] e h = absurd (omega arith)
fill_identity_from (suc left) i before (x ∷ s) e h =
    rw (set_between before s x i i e, ← append_assoc before (i ∷ []) s)
      (fill_identity_from left (i + 1) (before ++ i ∷ []) s (omega (arith, length-snoc before i))
          (omega arith)
        ∙ append_assoc before (i ∷ []) (iota left (i + 1)))

fill_identity-IsTable : (s : List ℕ) → length s ≡ 256 → IsTable (fill_identity 256 0 s)
fill_identity-IsTable s e = rw (fill_identity_from 256 0 [] s refl (sym e)) (record {
  full = length-iota 256 0;
  once = λ a h. count-iota a 256 0 (omega arith) (omega arith);
})

mix_key-IsTable :
    (key : List ℕ) (left i j : ℕ) (s : List ℕ)
    → i + left ≤ 256
    → IsTable s
    → IsTable (mix_key key left i j s)
unfolding mix_key
mix_key-IsTable key zero i j s h t = t
mix_key-IsTable key (suc left) i j s h t =
    mix_key-IsTable key left (i + 1) ((j + (get_or s j 0 + get_or key j 0)) % 256) _ (omega arith)
      (exchange-IsTable s i _ (omega arith) (omega arith) t)

read_key-some : (key : List ℕ) (j : ℕ) → j ≤ length key → (b : ℕ) × (read_key key j ≡ some b)
unfolding read_key
read_key-some key j h = elim (Bool-cases (j == length key)) [
  | inl last ↦ (0, rw last)
  | inr before ↦ let (b, e) = get_elem?-some key j (ground arith) in (b, rw before e)
]

expand_key-some :
    (text : List ℕ) (key_len left j : ℕ)
    → key_len ≤ length text
    → j ≤ length text
    → (key : List ℕ) × (expand_key text key_len left j ≡ some key) × (length key ≡ left)
unfolding expand_key
expand_key-some text key_len zero j h p = ([], refl, refl)
expand_key-some text key_len (suc left) j h p =
    let (b, eb) = read_key-some text j p in
    let (rest, er, el) =
      expand_key-some text key_len left (if leb key_len (j + 1) then 0 else j + 1) h
        (ground arith) in
    (b ∷ rest, ground arith, omega arith)

-- With a table of 256 bytes, a key that is not empty and a length within it, `prepareKey` reads nothing behind the key,
-- succeeds, and leaves a state whose table holds every byte once; so does every later round.
pub prepare_key-IsReady :
    (st : State) (text : List ℕ) (key_len : ℕ)
    → length st.s ≡ 256
    → is_empty_key text ≡ false
    → key_len ≤ length text
    → (st' : State) × (prepare_key st (some text) key_len ≡ some (st', true))
      × ((bytes : List ℕ) → IsReady (code_block st' bytes).0)
unfolding prepare_key
prepare_key-IsReady st text key_len full nonempty fits =
    let len : ℕ = if key_len == 0 then length text else key_len in
    let (key, e, _) = expand_key-some text len 256 0 (ground arith) (omega arith) in
    let mixed : State = record {
      x = 0;
      y = 0;
      s = mix_key key 256 0 0 (fill_identity 256 0 st.s);
    } in
    let ready : IsReady mixed = record {
      x_byte = omega arith;
      y_byte = omega arith;
      table = mix_key-IsTable key 256 0 0 _ (omega arith) (fill_identity-IsTable st.s full);
    } in
    (
      skip_for mixed 1013,
      rw (nonempty, e),
      λ bytes.
          rw (code_block-skip_for (skip_for mixed 1013) bytes)
            (skip_for-IsReady _ (length bytes) (skip_for-IsReady mixed 1013 ready)),
    )

-- Without a key the state is left alone and the call reports it.
pub prepare_key_refused :
    (st : State) (text : List ℕ) (key_len : ℕ)
    → is_empty_key text ≡ true
    → (prepare_key st (some text) key_len ≡ some (st, false))
      × (prepare_key st none key_len ≡ some (st, false))
unfolding prepare_key
prepare_key_refused st text key_len e = (rw e, refl)
