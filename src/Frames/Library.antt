-- ===== src/Frames/Library.antt =====
-- src/util/frames.c as the frames library of js/core.js: it keeps what class Frames relies on. A packet
-- is its bytes, and js0n of src/lib/js0n.c a parameter.
use telehash_c.Prelude.{
  ℕ, ◌≡◌, refl, ap, ◌∙◌, Bool, Option, none, some, List, [], ◌∷◌, ◌++◌, arith, length, ◌==◌,
  Bool-cases, inl, inr,
}
use telehash_c.Native.{FramesApi, FramesLaws, of_option}
use telehash_c.UtilFrames.{
  UtilFrames, Outcome, overrun, refused, accepted, is_pending, outbox, sent, inbox, is_ok, clear,
  receive, send, raw, load, advance, free_empties,
}
use telehash_c.UtilFrames.Queue.{packets, first, take_first, first-none}

-- What is left of the frames after a call, a read past the data included.
abbrev pub left : UtilFrames → Outcome → UtilFrames
left f overrun = f
left f (refused g) = g
left f (accepted g) = g

abbrev pub library : (List ℕ → Bool) → FramesApi UtilFrames (List ℕ)
library js0n = record {
  pending = is_pending;
  outbox = λ f size. ((outbox f).0, raw (outbox f).1);
  sent = sent;
  inbox = λ f bytes. left f (inbox js0n f bytes);
  is_ok = is_ok;
  clear = clear;
  receive = receive;
  send = λ f p. (send p f).0;
  waiting = λ f. packets f.inbox;
}

load-inbox : (q : List (Option (List ℕ))) (f : UtilFrames) → (load q f).0.inbox ≡ f.inbox
unfolding load
load-inbox [] f = refl
load-inbox (p ∷ q) f = refl

outbox-inbox : (f : UtilFrames) → (outbox f).0.inbox ≡ f.inbox
unfolding outbox
outbox-inbox f = elim (Bool-cases (length f.out == 0)) [
  | inl empty ↦ rw (outbox, empty) (load-inbox (free_empties f.is_sending f.outbox) f)
  | inr loaded ↦ rw (outbox, loaded) refl
]

advance-inbox : (q : List (Option (List ℕ))) (f : UtilFrames) → (advance q f).inbox ≡ f.inbox
unfolding advance
advance-inbox [] f = refl
advance-inbox (p ∷ q) f = ground arith

send-inbox : (p : List ℕ) (f : UtilFrames) → (send p f).0.inbox ≡ f.inbox
unfolding send
send-inbox p f = ground arith

first-take_first :
    (q : List (Option (List ℕ))) → of_option (first q) ++ packets (take_first q) ≡ packets q
unfolding packets first take_first
first-take_first [] = refl
first-take_first (none ∷ q) = first-take_first q
first-take_first (some p ∷ q) = refl

-- The laws of Native hold of src/util/frames.c.
pub library_laws : (js0n : List ℕ → Bool) → FramesLaws (library js0n)
unfolding receive is_pending sent
library_laws js0n = record {
  receive-waiting = λ f. first-take_first f.inbox;
  receive_none = λ f e. first-none f.inbox e;
  pending-receive = λ f. refl;
  waiting-send = λ f p. ap packets (send-inbox p f);
  waiting-sent =
      λ f size. ap packets (advance-inbox (outbox f).0.outbox (outbox f).0 ∙ outbox-inbox f);
}
