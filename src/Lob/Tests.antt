-- ===== src/Lob/Tests.antt =====
-- src/lib/lob.c: runs of the packet functions, and the theorems at concrete inputs.
use telehash_c.Prelude.{
  ℕ, zero, suc, ◌≡◌, refl, ap, true, false, none, some, List, [], ◌∷◌, arith, inl, inr, length,
}
use telehash_c.Lob.{Lob, Outside, new, short, head, append, parse}
use telehash_c.Lob.Writing.{Is, head_shorter}
use telehash_c.Lob.Parsing.{Call, heads, bodies, appends, plain_run, run, parse-run}

-- New bytes are 170, and every head is JSON.
unfoldable ones : ℕ → List ℕ
ones zero = []
ones (suc n) = 170 ∷ ones n

abbrev all_json : Outside
all_json = record { fresh = λ n. ones n; is_json = λ h. true }

length-ones : (n : ℕ) → length (ones n) ≡ n
unfolding ones
length-ones zero = refl
length-ones (suc n) = ap suc (length-ones n)

abbrev hello : Lob
hello = record { raw = 0 ∷ 2 ∷ 123 ∷ 125 ∷ 7 ∷ 8 ∷ []; head_len = 2; body_len = 2 }

longer_head :
    head all_json (1 ∷ 2 ∷ 3 ∷ []) hello
    ≡ some (record { raw = 0 ∷ 3 ∷ 1 ∷ 2 ∷ 3 ∷ 7 ∷ 8 ∷ []; head_len = 3; body_len = 2 })
unfolding head ones
longer_head = refl

appended :
    append all_json (9 ∷ []) hello
    ≡ some (record { raw = 0 ∷ 2 ∷ 123 ∷ 125 ∷ 7 ∷ 8 ∷ 9 ∷ []; head_len = 2; body_len = 3 })
unfolding append ones
appended = refl

too_short : parse all_json (0 ∷ 9 ∷ 1 ∷ []) ≡ none
unfolding parse
too_short = refl

not_json :
    parse (record all_json { is_json = λ h. false }) (0 ∷ 7 ∷ 1 ∷ 2 ∷ 3 ∷ 4 ∷ 5 ∷ 6 ∷ 7 ∷ []) ≡ none
unfolding parse
not_json = refl

abbrev calls : List Call
calls = heads (123 ∷ 125 ∷ []) ∷ bodies (5 ∷ []) ∷ appends (6 ∷ []) ∷ heads (1 ∷ 2 ∷ 3 ∷ []) ∷ []

parse-run_example :
    (p : Lob) × (run all_json calls new ≡ some p)
    × Is (1 ∷ 2 ∷ 3 ∷ []) (5 ∷ 6 ∷ []) p
    × (parse all_json p.raw ≡ some p)
unfolding plain_run
parse-run_example =
    parse-run all_json length-ones calls (inr refl, (tt, (tt, (inl (omega arith), tt))))
      (omega arith) (inr refl)

head_shorter_example : head all_json (1 ∷ []) hello ≡ none
unfolding short
head_shorter_example =
    head_shorter all_json length-ones (123 ∷ 125 ∷ []) (7 ∷ 8 ∷ []) (1 ∷ []) hello
      (refl, refl, refl) (omega arith) (omega arith)
