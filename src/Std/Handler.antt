-- ===== src/Std/Handler.antt =====
-- An HTTP handler: a sequence of steps over the response and the world, any of which may answer the
-- request and return.

use tenant_deck.Base.{Bool, true, false, Option, none, some, Result, ok, err, Error}
use tenant_deck.Base.Io.{Io}
use tenant_deck.Std.Http.{Writer, fresh}

pub record Conn (W : Type 0) : Type 0 where
  pub writer : Writer
  pub world : W

pub data Flow (A : Type 0) : Type 0 where
  next : A → Flow A
  done : Flow A

abbrev pub Handler : Type 0 → Type 0 → Type 0
Handler W A = Conn W → Flow A × Conn W

abbrev pub Respond : Type 0
Respond = Writer → Writer

module _ {W : Type 0} where
  -- Writes to the response and goes on.
  abbrev pub emit : Respond → Handler W (Unit {0})
  emit f c = (next tt, record c { writer = f c.writer })

  -- Writes to the response and returns.
  abbrev pub answer : {A : Type 0} → Respond → Handler W A
  answer f c = (done, record c { writer = f c.writer })

  -- Answers unless the test holds.
  abbrev pub require : Bool → Respond → Handler W (Unit {0})
  require true f c = (next tt, c)
  require false f c = (done, record c { writer = f c.writer })

module _ {W A : Type 0} where
  abbrev pub finish : A → Handler W A
  finish a c = (next a, c)

  -- Answers if there is no value.
  abbrev pub need : Option A → Respond → Handler W A
  need (some a) f c = (next a, c)
  need none f c = (done, record c { writer = f c.writer })

  abbrev settle : (Error → Respond) → Result A → Handler W A
  settle f (ok a) c = (next a, c)
  settle f (err e) c = (done, record c { writer = f e c.writer })

  -- A call that answers if it fails.
  abbrev pub call : Io W A → (Error → Respond) → Handler W A
  call m f c = settle f (m c.world).0 (record c { world = (m c.world).1 })

  -- A pure result that answers if it is an error.
  abbrev pub check : Result A → (Error → Respond) → Handler W A
  check r f c = settle f r c

  -- A call whose failure the handler looks at itself.
  abbrev pub attempt : Io W A → Handler W (Result A)
  attempt m c = (next (m c.world).0, record c { world = (m c.world).1 })

  -- A reading that cannot fail.
  abbrev pub read : (W → A × W) → Handler W A
  read m c = (next (m c.world).0, record c { world = (m c.world).1 })

module _ {W A B : Type 0} where
  abbrev pub proceed : Flow A → (A → Handler W B) → Handler W B
  proceed (next a) f c = f a c
  proceed done f c = (done, c)

  infixl 5 ◌>>=◌ ◌>>◌
  abbrev pub ◌>>=◌ : Handler W A → (A → Handler W B) → Handler W B
  ◌>>=◌ m f c = proceed (m c).0 f (m c).1

  abbrev pub ◌>>◌ : Handler W A → Handler W B → Handler W B
  ◌>>◌ m n c = proceed (m c).0 (λ _. n) (m c).1

-- The response to a request and the world after it.
abbrev pub serve : {W : Type 0} → Handler W (Unit {0}) → W → Conn W
serve h w = (h (record { writer = fresh; world = w })).1
