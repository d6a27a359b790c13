-- ===== src/Http/Channel/Evolves.antt =====
-- How a channel may change: nothing is handed over once a reply has been sent, and what is handed
-- over is one response whose status has a property.
use machinepal.Prelude.{ℕ, ◌≡◌, refl, ◌∙◌, ap, true, ◌∷◌, ◌⊎◌, inl, inr, arith}
use machinepal.Platform.{Platform}
use machinepal.Http.{HttpResponse}
use machinepal.Http.Channel.{
  Channel, ProcessorState, Sender, gone, faulty, works, is_reply_sent, start, error_sent,
  reply_sent, send_response, answer,
}

abbrev pub IsSent : {p : Platform} → Channel p → Type 0
IsSent c = is_reply_sent c.state ≡ true

pub error_final : is_reply_sent error_sent ≡ true
unfolding is_reply_sent
error_final = refl

pub reply_final : is_reply_sent reply_sent ≡ true
unfolding is_reply_sent
reply_final = refl

pub record Evolves {p : Platform} (P : ℕ → Type 0) (c c' : Channel p) : Type 0 where
  pub closed : IsSent c → IsSent c' × (c'.handed ≡ c.handed)
  pub hands :
      (c'.handed ≡ c.handed)
      ⊎ (IsSent c' × (r : HttpResponse p) × P r.status × (c'.handed ≡ r ∷ c.handed))

module _ {p : Platform} {P : ℕ → Type 0} where
  pub Evolves-refl : (c : Channel p) → Evolves P c c
  Evolves-refl c = record { closed = λ h. (h, refl); hands = inl refl }

  pub Evolves-trans : {c d e : Channel p} → Evolves P c d → Evolves P d e → Evolves P c e
  Evolves-trans {c} {d} {e} f g = record {
    closed = λ h.
        let (sent, same) = f.closed h in
        let (sent', same') = g.closed sent in (sent', same' ∙ same);
    hands = elim f.hands [
      | inl same ↦ elim g.hands [
        | inl same' ↦ inl (same' ∙ same)
        | inr (sent, r, fine, more) ↦ inr (sent, r, fine, more ∙ ap (λ l. r ∷ l) same)
      ]
      | inr (sent, r, fine, more) ↦
          let (sent', same') = g.closed sent in inr (sent', r, fine, same' ∙ more)
    ];
  }

  pub answer-Evolves :
      (c : Channel p) (state : ProcessorState) (r : HttpResponse p)
      → is_reply_sent state ≡ true
      → P r.status
      → Evolves P c (answer state r c)
  unfolding answer send_response is_reply_sent
  answer-Evolves c state r final fine = record {
    closed = λ sent. (final, ground arith);
    hands = handed c.state c.sender refl refl;
  }
    where
      handed :
          (before : ProcessorState) (sender : Sender)
          → c.state ≡ before
          → c.sender ≡ sender
          → ((answer state r c).handed ≡ c.handed)
            ⊎ (IsSent (answer state r c)
                × (q : HttpResponse p) × P q.status
                × ((answer state r c).handed ≡ q ∷ c.handed))
      handed error_sent sender e f = inl (rw e)
      handed reply_sent sender e f = inl (rw e)
      handed start gone e f = inl (rw (e, f))
      handed start faulty e f = inr (final, r, fine, rw (e, f))
      handed start works e f = inr (final, r, fine, rw (e, f))

pub Evolves-weaken :
    {p : Platform} {P Q : ℕ → Type 0} {c d : Channel p}
    → ((n : ℕ) → P n → Q n)
    → Evolves P c d
    → Evolves Q c d
Evolves-weaken {p} {P} {Q} {c} {d} f e = record {
  closed = e.closed;
  hands = elim e.hands [
    | inl same ↦ inl same
    | inr (sent, r, fine, more) ↦ inr (sent, r, f r.status fine, more)
  ];
}
