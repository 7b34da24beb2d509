-- ===== src/Ledger/Lines/Accepted.antt =====
-- What `_validate_lines` accepts: exactly the lines of a balanced double entry.
use chamacore.Prelude.{
  ℕ, ◌+◌, ◌<◌, ◌≡◌, refl, sym, ap, ◌⊎◌, ◌↔◌, Bool, true, false, ◌||◌, not, List, [], ◌∷◌, is_some,
  arith, ◌∙◌,
}
use chamacore.Prelude.Int.{pos_part, neg_part, sub_ℕ, sub_ℕ_parts, int_laws}
use chamacore.Prelude.Table.{All, sum_of}
use chamacore.Data.{Db}
use chamacore.Session.{AppError, ok, check, after}
use chamacore.Session.Rules.{after-ok, ok-injective}
use chamacore.Ledger.Lines.{
  Line, positive, is_zero, validate_line, validate_loop, validate_lines, imbalance,
}
use chamacore.Ledger.Store.{get_in_chama}

-- One side is positive and the other 0.
abbrev pub OneSided : Line → Type 0
OneSided l =
    (neg_part l.debit ≡ 0)
    × (neg_part l.credit ≡ 0)
    × ((0 < pos_part l.debit) × (pos_part l.credit ≡ 0)
        ⊎ (pos_part l.debit ≡ 0) × (0 < pos_part l.credit))

abbrev pub Known : ℕ → Db → Line → Type 0
Known chama_id db l = is_some (get_in_chama chama_id l.account_id db) ≡ true

abbrev pub debits : List Line → ℕ
debits = sum_of (λ l. pos_part l.debit)

abbrev pub credits : List Line → ℕ
credits = sum_of (λ l. pos_part l.credit)

-- A double entry over accounts of one Chama.
pub record IsPostable (chama_id : ℕ) (db : Db) (lines : List Line) : Type 0 where
  pub sides : All OneSided lines
  pub known : All (Known chama_id db) lines
  pub moves : 0 < debits lines
  pub balanced : debits lines ≡ credits lines

validate_line_sound :
    (chama_id : ℕ) (l : Line) (db : Db)
    → validate_line chama_id l db ≡ ok tt
    → OneSided l × Known chama_id db l
unfolding validate_line
validate_line_sound chama_id l db h = ground arith

validate_line_complete :
    (chama_id : ℕ) (l : Line) (db : Db)
    → OneSided l
    → Known chama_id db l
    → validate_line chama_id l db ≡ ok tt
unfolding validate_line
validate_line_complete chama_id l db s k = ground arith

imbalance_lem : (ls : List Line) → All OneSided ls → imbalance ls ≡ sub_ℕ (debits ls) (credits ls)
unfolding imbalance
imbalance_lem [] h = refl
imbalance_lem (l ∷ ls) h =
    let ih = imbalance_lem ls h.1 in
    rw ih (
      omega (
        int_laws,
        sub_ℕ_parts (debits ls) (credits ls),
        sub_ℕ_parts (pos_part l.debit + debits ls) (pos_part l.credit + credits ls),
      ))

is_zero-sub : (a b : ℕ) → (is_zero (sub_ℕ a b) ≡ true) ↔ (a ≡ b)
is_zero-sub a b = (λ h. ground arith, λ h. ground arith)

abbrev any_debit : List Line → Bool
any_debit [] = false
any_debit (l ∷ ls) = positive l.debit || any_debit ls

abbrev any_credit : List Line → Bool
any_credit [] = false
any_credit (l ∷ ls) = not (positive l.debit) || any_credit ls

or_assoc : (a b c : Bool) → ((a || b) || c) ≡ (a || (b || c))
or_assoc true b c = refl
or_assoc false b c = refl

or_false : (a : Bool) → (a || false) ≡ a
or_false true = refl
or_false false = refl

validate_loop_sound :
    (chama_id : ℕ) (db : Db) (ls : List Line) (d c : Bool) {r : Bool × Bool}
    → validate_loop chama_id db ls d c ≡ ok r
    → All OneSided ls × All (Known chama_id db) ls × (r ≡ (d || any_debit ls, c || any_credit ls))
unfolding validate_loop
validate_loop_sound chama_id db [] d c h = (tt, tt, simp or_false (sym (ok-injective h)))
validate_loop_sound chama_id db (l ∷ ls) d c {r} h =
    let (u, first, rest) =
      after-ok (validate_line chama_id l db)
        (λ _. validate_loop chama_id db ls (d || positive l.debit) (c || not (positive l.debit)))
        h in
    let (sides, known) = validate_line_sound chama_id l db first in
    let (ss, ks, e) =
      validate_loop_sound chama_id db ls (d || positive l.debit) (c || not (positive l.debit))
        rest in
    ((sides, ss), (known, ks), simp (or_assoc) at e)

validate_loop_complete :
    (chama_id : ℕ) (db : Db) (ls : List Line) (d c : Bool)
    → All OneSided ls
    → All (Known chama_id db) ls
    → validate_loop chama_id db ls d c ≡ ok (d || any_debit ls, c || any_credit ls)
unfolding validate_loop
validate_loop_complete chama_id db [] d c s k = simp or_false
validate_loop_complete chama_id db (l ∷ ls) d c s k =
    rw (validate_line_complete chama_id l db s.0 k.0) (
      validate_loop_complete chama_id db ls (d || positive l.debit) (c || not (positive l.debit))
        s.1 k.1
      ∙ simp or_assoc)

-- With one side to a line, some line has a debit exactly where the debits sum to more than 0.
any_debit-debits : (ls : List Line) → All OneSided ls → (any_debit ls ≡ true) ↔ (0 < debits ls)
any_debit-debits [] h = (λ e. cc, λ e. elim e [ ])
any_debit-debits (l ∷ ls) h =
    let ih = any_debit-debits ls h.1 in (λ e. ground arith, λ e. ground arith)

any_credit-credits : (ls : List Line) → All OneSided ls → (any_credit ls ≡ true) ↔ (0 < credits ls)
any_credit-credits [] h = (λ e. cc, λ e. elim e [ ])
any_credit-credits (l ∷ ls) h =
    let ih = any_credit-credits ls h.1 in (λ e. ground arith, λ e. ground arith)

-- The checks after the loop.
tail-ok :
    (d c z : Bool) (e f : AppError)
    → after (check (not d || not c) e) (λ _. check (not z) f) ≡ ok tt
    → (d ≡ true) × (c ≡ true) × (z ≡ true)
tail-ok d c z e f h = ground arith

validate_lines_sound :
    (chama_id : ℕ) (lines : List Line) (db : Db)
    → validate_lines chama_id lines db ≡ ok tt
    → IsPostable chama_id db lines
unfolding validate_lines
validate_lines_sound chama_id [] db h = cc
validate_lines_sound chama_id (l ∷ ls) db h =
    let ((d, c), loop, rest) = after-ok (validate_loop chama_id db (l ∷ ls) false false) _ h in
    let (sides, known, flags) = validate_loop_sound chama_id db (l ∷ ls) false false loop in
    let (has_debit, has_credit, zero_sum) = tail-ok d c (is_zero (imbalance (l ∷ ls))) _ _ rest in
    let some_debit : any_debit (l ∷ ls) ≡ true =
      sym (ap (λ (p : Bool × Bool). p.0) flags) ∙ has_debit in
    record {
      sides = sides;
      known = known;
      moves = (any_debit-debits (l ∷ ls) sides).0 some_debit;
      balanced = (is_zero-sub _ _).0 (rw (imbalance_lem (l ∷ ls) sides) at zero_sum);
    }

validate_lines_complete :
    (chama_id : ℕ) (lines : List Line) (db : Db)
    → IsPostable chama_id db lines
    → validate_lines chama_id lines db ≡ ok tt
unfolding validate_lines
validate_lines_complete chama_id [] db h = absurd (omega (arith, h.moves))
validate_lines_complete chama_id (l ∷ ls) db h =
    rw (validate_loop_complete chama_id db (l ∷ ls) false false h.sides h.known) (
      let d : any_debit (l ∷ ls) ≡ true = (any_debit-debits (l ∷ ls) h.sides).1 h.moves in
      let c : any_credit (l ∷ ls) ≡ true =
        (any_credit-credits (l ∷ ls) h.sides).1 (omega (arith, h.moves, h.balanced)) in
      let z : is_zero (imbalance (l ∷ ls)) ≡ true =
        rw (imbalance_lem (l ∷ ls) h.sides) ((is_zero-sub _ _).1 h.balanced) in
      rw (d, c, z))

-- The validation accepts exactly the balanced double entries over accounts of the Chama: each line
-- has one side, some money moves, and debits equal credits.
pub validate_lines_iff :
    (chama_id : ℕ) (lines : List Line) (db : Db)
    → (validate_lines chama_id lines db ≡ ok tt) ↔ IsPostable chama_id db lines
validate_lines_iff chama_id lines db =
    (validate_lines_sound chama_id lines db, validate_lines_complete chama_id lines db)
