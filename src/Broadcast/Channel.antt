-- ===== src/Broadcast/Channel.antt =====
-- Go's buffered channels as far as pkg/channel uses them: `make`, a send, `close`, a receive.
use api_poll.Prelude.{
  ℕ, Bool, true, false, List, [], ◌∷◌, ◌++◌, none, some, length, get_elem?, set, ltb, if◌then◌else◌,
}

pub record Chan {ℓ} (A : Type ℓ) : Type ℓ where
  pub cap : ℕ
  pub buffer : List A
  pub shut : Bool

abbrev pub Heap {ℓ} : Type ℓ → Type ℓ
Heap A = List (Chan A)

-- A statement ends, waits for a receiver, or panics.
pub data Outcome {ℓ} (S : Type ℓ) : Type ℓ where
  done : S → Outcome S
  waits : Outcome S
  panicked : Outcome S

infixl 5 ◌>>=◌
abbrev pub ◌>>=◌ {ℓ κ} : {S : Type ℓ} {T : Type κ} → Outcome S → (S → Outcome T) → Outcome T
done s >>= f = f s
waits >>= f = waits
panicked >>= f = panicked

module _ {ℓ} {A : Type ℓ} where
  abbrev pub fresh : ℕ → Chan A
  fresh cap = record { cap = cap; buffer = []; shut = false }

  abbrev pub pushed : A → Chan A → Chan A
  pushed v c = record c { buffer = c.buffer ++ v ∷ [] }

  -- A send panics on a closed channel, and waits while the buffer is full.
  abbrev pub put_in : A → Chan A → Outcome (Chan A)
  put_in v c =
      if c.shut then panicked else if ltb (length c.buffer) c.cap then done (pushed v c) else waits

  abbrev pub shut_down : Chan A → Outcome (Chan A)
  shut_down c = if c.shut then panicked else done (record c { shut = true })

  -- Nothing is at a number that no `make` has given out; the program holds no such number.
  abbrev pub at : ℕ → (Chan A → Outcome (Chan A)) → Heap A → Outcome (Heap A)
  at f op h = elim (get_elem? h f) [ none ↦ panicked | some c ↦ op c >>= λ c'. done (set h f c') ]

  unfoldable pub send_on : ℕ → A → Heap A → Outcome (Heap A)
  send_on f v h = at f (put_in v) h

  unfoldable pub close_on : ℕ → Heap A → Outcome (Heap A)
  close_on f h = at f shut_down h
