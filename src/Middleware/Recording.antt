-- ===== src/Middleware/Recording.antt =====
-- internal/handler/middleware/recorder.go: the recorder against what was sent.
use stripe_payment_service.Prelude.{
  ℕ, ◌+◌, Bool, true, false, ◌≡◌, refl, sym, ◌∙◌, Option, none, some, List, [], ◌∷◌, arith,
  Bool-cases, inl, inr, Text,
}
use stripe_payment_service.Middleware.{
  Sent, head, chunk, Recorder, Exchange, Net, Op, set_field, add_field, send_status, send,
  write_header, write_header_on, write, apply, apply_all, Context, Handler, play, Serve,
  opened_writer, write_on,
}

abbrev pub is_begun : List Sent → Bool
is_begun [] = false
is_begun (s ∷ ss) = true

-- One head at most, and the body behind it. What was sent last stands first.
abbrev pub IsResponse : List Sent → Type 0
IsResponse [] = Unit
IsResponse (head status h ∷ before) = is_begun before ≡ false
IsResponse (chunk b ∷ before) = (is_begun before ≡ true) × IsResponse before

-- The status that the client sees: that of the head, or the one that net/http sends by itself.
abbrev pub status_of : List Sent → ℕ
status_of [] = 200
status_of (head status h ∷ before) = status
status_of (chunk b ∷ before) = status_of before

-- The bytes of the body that the connection took.
abbrev pub accepted : Net → List Sent → ℕ
accepted net [] = 0
accepted net (head status h ∷ before) = accepted net before
accepted net (chunk b ∷ before) = accepted net before + net.taken before b

pub record Records (net : Net) (sent : List Sent) (r : Recorder) : Type 0 where
  pub shape : IsResponse sent
  pub status : r.status ≡ status_of sent
  pub written : r.written ≡ accepted net sent
  pub begun : r.wrote_header ≡ is_begun sent

abbrev pub RecordsIn : Net → List Sent → Option Recorder → Type 0
RecordsIn net sent none = ⊥
RecordsIn net sent (some r) = Records net sent r

module _ {L : Type 0} (net : Net) where
  -- The writer is wrapped, and its recorder says what was sent.
  abbrev pub IsFaithful : Exchange L → Type 0
  IsFaithful x = RecordsIn net x.sent x.recorder

  opening :
      (code : ℕ) (x : Exchange L) (sent : List Sent) (r : Recorder)
      → Records net sent r
      → r.wrote_header ≡ false
      → Records net (head code x.headers ∷ sent) (record r { status = code; wrote_header = true })
  opening code x [] r h e = record {
    shape = refl;
    status = refl;
    written = h.written;
    begun = refl;
  }
  opening code x (s ∷ ss) r h e = ground (arith, h.begun)

  header_kept :
      (code : ℕ) (o : Option Recorder) (x : Exchange L)
      → x.recorder ≡ o
      → RecordsIn net x.sent o
      → IsFaithful (write_header_on o code x)
  unfolding write_header_on
  header_kept code none x e h = absurd h
  header_kept code (some r) x e h = elim (Bool-cases r.wrote_header) [
    | inl begun ↦ rw (begun, e) h
    | inr fresh ↦ rw fresh (opening code x x.sent r h fresh)
  ]

  pub write_header-IsFaithful :
      (code : ℕ) (x : Exchange L) → IsFaithful x → IsFaithful (write_header code x)
  unfolding write_header
  write_header-IsFaithful code x h = header_kept code x.recorder x refl h

  -- A recorder that has begun, and what it says.
  abbrev HasBegun : Exchange L → Type 0
  HasBegun x =
      (r : Recorder) × (x.recorder ≡ some r) × (r.wrote_header ≡ true) × Records net x.sent r

  opened_begun :
      (o : Option Recorder) (x : Exchange L)
      → x.recorder ≡ o
      → RecordsIn net x.sent o
      → HasBegun (opened_writer o x)
  unfolding write_header write_header_on
  opened_begun none x e h = absurd h
  opened_begun (some r) x e h = elim (Bool-cases r.wrote_header) [
    | inl begun ↦ rw begun (r, e, begun, h)
    | inr fresh ↦
        rw (fresh, e, fresh)
          (
            record r { status = 200; wrote_header = true },
            refl,
            refl,
            opening 200 x x.sent r h fresh,
          )
  ]

  part_sent : (b : Text) (x : Exchange L) → HasBegun x → IsFaithful (write_on net b x)
  part_sent b x (r, e, begun, h) = rw e (record {
    shape = (sym h.begun ∙ begun, h.shape);
    status = h.status;
    written = omega (arith, h.written);
    begun = begun;
  })

  pub write-IsFaithful : (b : Text) (x : Exchange L) → IsFaithful x → IsFaithful (write net b x)
  unfolding write
  write-IsFaithful b x h =
      part_sent b (opened_writer x.recorder x) (opened_begun x.recorder x refl h)

  pub apply_all-IsFaithful :
      (ops : List Op) (x : Exchange L) → IsFaithful x → IsFaithful (apply_all net ops x)
  unfolding apply_all apply
  apply_all-IsFaithful [] x h = h
  apply_all-IsFaithful (set_field n v ∷ ops) x h =
      apply_all-IsFaithful ops (apply net (set_field n v) x) h
  apply_all-IsFaithful (add_field n v ∷ ops) x h =
      apply_all-IsFaithful ops (apply net (add_field n v) x) h
  apply_all-IsFaithful (send_status code ∷ ops) x h =
      apply_all-IsFaithful ops (write_header code x) (write_header-IsFaithful code x h)
  apply_all-IsFaithful (send b ∷ ops) x h =
      apply_all-IsFaithful ops (write net b x) (write-IsFaithful b x h)

  -- A part of the chain that keeps the recorder faithful, however it ends.
  abbrev pub Keeps : Serve L → Type 0
  Keeps s = (c : Context) (x : Exchange L) → IsFaithful x → IsFaithful (s c x).1

  pub play-Keeps : (h : Handler) → Keeps (play net h)
  unfolding play
  play-Keeps h c x f =
      apply_all-IsFaithful (h c x.world).0.0 (record x { world = (h c x.world).1 }) f
