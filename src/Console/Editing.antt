-- ===== src/Console/Editing.antt =====
-- The counters of Xv6/kernel/console.c, and the lines that were entered.
use os_project.Prelude.{
  ℕ, zero, suc, ◌+◌, ◌%◌, ◌^◌, ◌≤◌, ◌<◌, ◌≡◌, ◌≢◌, ◌⊎◌, inl, inr, refl, sym, Bool, true, false,
  ◌&&◌, ◌||◌, not, Bool-cases, List, [], ◌++◌, ◌==◌, ltb, if◌then◌else◌, if_true, if_false, arith,
  ℕ_discrete,
}
use mathlib.Core.Path.{subst}
use os_project.Console.{
  Console, Outcome, input_buf_size, incr, decr, distance, newline, carriage_return, ctrl_d, ctrl_p,
  ctrl_u, backspace, delete, rub_out, kill_line, rub_one, store, consoleintr,
}

-- The read counter is at most the write counter, that at most the edit counter, and all within the
-- size of the buffer of the first.
pub record IsValid (c : Console) : Type 0 where
  pub r_word : c.r < 2 ^ 32
  pub w_word : c.w < 2 ^ 32
  pub e_word : c.e < 2 ^ 32
  pub in_order : distance c.r c.w ≤ distance c.r c.e
  pub fits : distance c.r c.e ≤ input_buf_size

-- Byte `k` of what was entered and not read.
abbrev pub entered : Console → ℕ → ℕ
entered c k = c.buf ((c.r + k) % 2 ^ 32 % input_buf_size)

-- What an interrupt may do: edit behind the write counter, or enter all that is there.
pub record Edited (c d : Console) : Type 0 where
  pub valid : IsValid d
  pub r : d.r ≡ c.r
  pub lines : (k : ℕ) → k < distance c.r c.w → entered d k ≡ entered c k
  pub w : (d.w ≡ c.w) ⊎ (d.w ≡ d.e)

Edited-refl : (c : Console) → IsValid c → Edited c c
Edited-refl c v = record { valid = v; r = refl; lines = λ k lt. refl; w = inl refl }

-- One character is rubbed out.
shorter :
    (r w e : ℕ)
    → r < 2 ^ 32
    → w < 2 ^ 32
    → e < 2 ^ 32
    → distance r w ≤ distance r e
    → e ≢ w
    → distance r w ≤ distance r (decr e)
shorter r w e lr lw le order ne = omega arith

shorter_fits :
    (r w e : ℕ)
    → r < 2 ^ 32
    → w < 2 ^ 32
    → e < 2 ^ 32
    → distance r w ≤ distance r e
    → e ≢ w
    → distance r e ≤ input_buf_size
    → distance r (decr e) ≤ input_buf_size
shorter_fits r w e lr lw le order ne fits = omega arith

-- The slot behind the last character is not one of those before.
other_slot :
    (r w e k : ℕ)
    → r < 2 ^ 32
    → e < 2 ^ 32
    → distance r w ≤ distance r e
    → distance r e < input_buf_size
    → k < distance r w
    → ((r + k) % 2 ^ 32 % input_buf_size == e % input_buf_size) ≡ false
other_slot r w e k lr le order fits lt = ground arith

rubbed-IsValid : (c : Console) → IsValid c → c.e ≢ c.w → IsValid (record c { e = decr c.e })
rubbed-IsValid c v ne = record {
  r_word = v.r_word;
  w_word = v.w_word;
  e_word = omega arith;
  in_order = shorter c.r c.w c.e v.r_word v.w_word v.e_word v.in_order ne;
  fits = shorter_fits c.r c.w c.e v.r_word v.w_word v.e_word v.in_order ne v.fits;
}

unequal : (a b : ℕ) (x : Bool) → (not (a == b) && x) ≡ true → a ≢ b
unequal a b x e = ground arith

kill_line-Edited :
    (n : ℕ) (c : Console) (echo : List ℕ) → IsValid c → Edited c (kill_line n c echo).cons
unfolding kill_line
kill_line-Edited zero c echo v = Edited-refl c v
kill_line-Edited (suc n) c echo v =
    elim (Bool-cases (not (c.e == c.w) && not (c.buf (decr c.e % input_buf_size) == newline))) [
      | inl goes_on ↦
          subst (λ (o : Outcome). Edited c o.cons)
            (sym (
              if_true (not (c.e == c.w) && not (c.buf (decr c.e % input_buf_size) == newline)) _ _
                goes_on))
            (let x =
                kill_line-Edited n (record c { e = decr c.e }) (echo ++ rub_out)
                  (rubbed-IsValid c v (unequal c.e c.w _ goes_on)) in
              record { valid = x.valid; r = x.r; lines = x.lines; w = x.w })
      | inr stops ↦
          subst (λ (o : Outcome). Edited c o.cons)
            (sym (
              if_false (not (c.e == c.w) && not (c.buf (decr c.e % input_buf_size) == newline)) _ _
                stops))
            (Edited-refl c v)
    ]

rub_one-Edited : (c : Console) → IsValid c → Edited c (rub_one c).cons
unfolding rub_one
rub_one-Edited c v = elim (ℕ_discrete c.e c.w) [
  | yes same ↦
      subst (λ (o : Outcome). Edited c o.cons)
        (sym (if_false (not (c.e == c.w)) _ _ (ground arith))) (Edited-refl c v)
  | no ne ↦
      subst (λ (o : Outcome). Edited c o.cons) (sym (if_true (not (c.e == c.w)) _ _ (ground arith)))
        (record { valid = rubbed-IsValid c v ne; r = refl; lines = λ k lt. refl; w = inl refl })
]

store-Edited :
    (ch : ℕ) (c : Console)
    → IsValid c
    → distance c.r c.e < input_buf_size
    → Edited c (store ch c).cons
unfolding store
store-Edited ch c v room =
    let new = if ch == carriage_return then newline else ch in
    let test = new == newline || new == ctrl_d || distance c.r (incr c.e) == input_buf_size in
    let r_word = v.r_word in
    let e_word = v.e_word in
    let order = v.in_order in
    let lines : (k : ℕ)
        → k < distance c.r c.w
        → (if (c.r + k) % 2 ^ 32 % input_buf_size == c.e % input_buf_size then new else entered c k)
          ≡ entered c k =
      λ k lt.
        if_false ((c.r + k) % 2 ^ 32 % input_buf_size == c.e % input_buf_size) new (entered c k)
          (other_slot c.r c.w c.e k r_word e_word order room lt) in
    elim (Bool-cases test) [
      | inl line ↦
          subst (λ (o : Outcome). Edited c o.cons) (sym (if_true test _ _ line))
            (record {
              valid = record {
                r_word = r_word;
                w_word = omega arith;
                e_word = omega arith;
                in_order = omega arith;
                fits = omega arith;
              };
              r = refl;
              lines = lines;
              w = inr refl;
            })
      | inr no_line ↦
          subst (λ (o : Outcome). Edited c o.cons) (sym (if_false test _ _ no_line))
            (record {
              valid = record {
                r_word = r_word;
                w_word = v.w_word;
                e_word = omega arith;
                in_order = omega arith;
                fits = omega arith;
              };
              r = refl;
              lines = lines;
              w = inl refl;
            })
    ]

pub branch :
    {A : Type 0} (P : A → Type 0) (b : Bool) (x y : A)
    → (b ≡ true → P x)
    → (b ≡ false → P y)
    → P (if b then x else y)
branch P true x y p q = p refl
branch P false x y p q = q refl

-- Whatever character arrives, `consoleintr` keeps the counters of a valid buffer in order, does not
-- change a character that was entered and not read, and leaves the write counter where it was or
-- moves it to the edit counter.
pub consoleintr-Edited : (ch : ℕ) (c : Console) → IsValid c → Edited c (consoleintr ch c).cons
unfolding consoleintr
consoleintr-Edited ch c v =
    branch (λ (o : Outcome). Edited c o.cons) (ch == ctrl_p) _ _ (λ e. Edited-refl c v)
      (λ e.
        branch (λ (o : Outcome). Edited c o.cons) (ch == ctrl_u) _ _
          (λ e. kill_line-Edited input_buf_size c [] v)
          (λ e.
            branch (λ (o : Outcome). Edited c o.cons) (ch == backspace || ch == delete) _ _
              (λ e. rub_one-Edited c v)
              (λ e.
                branch (λ (o : Outcome). Edited c o.cons)
                  (not (ch == 0) && ltb (distance c.r c.e) input_buf_size) _ _
                  (λ e. store-Edited ch c v (second _ _ e)) (λ e. Edited-refl c v))))
  where
    second : (b : Bool) (d : ℕ) → (b && ltb d input_buf_size) ≡ true → d < input_buf_size
    second b d e = ground arith
