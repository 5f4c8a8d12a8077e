-- ===== src/Native/Own.antt =====
-- What the events of a coroutine's own handle or request do to it.
use mathlib.Core.List.{Memᴰ}
use couv.Prelude.{
  ℕ, ◌==◌, ◌≡◌, ◌≢◌, inl, inr, refl, sym, ap, ◌∙◌, Bool, true, false, List, [], ◌∷◌, arith,
}
use couv.Native.{Loop, Phase, Result, Answer, sleep_cb}
use couv.Native.Play.{on_fires, on_closes, on_answers}
use couv.Native.Ends.{EndsIn, sleep_close_cb_lem, getaddrinfo_cb_lem, all_ip_in, results_of}
use couv.Native.Steps.{IsConsistent, IsWoken, Waits, is_asleep, is_fired, is_asked}

-- The events of a coroutine itself, in each phase of its handle or request.
module _ (p co : ℕ) (l : Loop) where
  wrong_phase {ℓ} :
      {A : Type ℓ} (S : Phase → Bool) (phase : Phase)
      → l.phase p ≡ phase
      → S phase ≡ false
      → S (l.phase p) ≡ true
      → A
  wrong_phase S phase e f s = absurd (let bad : false ≡ true = sym (ap S e ∙ f) ∙ s in cc)

  under_way :
      (phase : Phase) → IsConsistent l → l.phase p ≡ phase → phase ≢ Phase.idle → l.memory p ≡ true
  under_way phase c e ne = c p (λ f. ne (sym e ∙ f))

  pub own_fires :
      (phase : Phase)
      → l.phase p ≡ phase
      → Waits is_asleep p co l
      → EndsIn (Waits is_fired p co) (on_fires phase p l)
  unfolding sleep_cb
  own_fires Phase.armed e (inl w) = inl w
  own_fires Phase.armed e (inr (o, s)) =
      let self : (p == p) ≡ true = ground arith in inr (o, rw self refl)
  own_fires Phase.closing e (inl w) = inl w
  own_fires Phase.closing e (inr (o, s)) = inr (o, ap is_fired e)
  own_fires Phase.idle e (inl w) = inl w
  own_fires Phase.idle e (inr (o, s)) = wrong_phase is_asleep Phase.idle e refl s
  own_fires Phase.resolving e (inl w) = inl w
  own_fires Phase.resolving e (inr (o, s)) = wrong_phase is_asleep Phase.resolving e refl s

  pub own_closes :
      (phase : Phase)
      → IsConsistent l
      → l.phase p ≡ phase
      → Waits is_fired p co l
      → EndsIn (IsWoken co) (on_closes phase p l)
  own_closes Phase.closing c e w =
      rw (sleep_close_cb_lem p l (under_way Phase.closing c e (λ f. cc)), EndsIn) (resumed w)
    where
      resumed :
          Waits is_fired p co l → (rs : List Result) × Memᴰ (co, rs) ((l.owner p, []) ∷ l.resumed)
      resumed (inl (rs, m)) = (rs, Memᴰ.tail m)
      resumed (inr (o, s)) = ([], Memᴰ.head (ap (λ x. (x, [])) (sym o)))
  own_closes Phase.armed c e (inl w) = w
  own_closes Phase.armed c e (inr (o, s)) = wrong_phase is_fired Phase.armed e refl s
  own_closes Phase.idle c e (inl w) = w
  own_closes Phase.idle c e (inr (o, s)) = wrong_phase is_fired Phase.idle e refl s
  own_closes Phase.resolving c e (inl w) = w
  own_closes Phase.resolving c e (inr (o, s)) = wrong_phase is_fired Phase.resolving e refl s

  pub own_answers :
      (a : Answer) (phase : Phase)
      → all_ip_in a ≡ true
      → IsConsistent l
      → l.phase p ≡ phase
      → Waits is_asked p co l
      → EndsIn (IsWoken co) (on_answers phase p a l)
  own_answers a Phase.resolving h c e w =
      rw (getaddrinfo_cb_lem p a l (under_way Phase.resolving c e (λ f. cc)) h, EndsIn) (resumed w)
    where
      resumed :
          Waits is_asked p co l
          → (rs : List Result) × Memᴰ (co, rs) ((l.owner p, results_of a) ∷ l.resumed)
      resumed (inl (rs, m)) = (rs, Memᴰ.tail m)
      resumed (inr (o, s)) = (results_of a, Memᴰ.head (ap (λ x. (x, results_of a)) (sym o)))
  own_answers a Phase.armed h c e (inl w) = w
  own_answers a Phase.armed h c e (inr (o, s)) = wrong_phase is_asked Phase.armed e refl s
  own_answers a Phase.idle h c e (inl w) = w
  own_answers a Phase.idle h c e (inr (o, s)) = wrong_phase is_asked Phase.idle e refl s
  own_answers a Phase.closing h c e (inl w) = w
  own_answers a Phase.closing h c e (inr (o, s)) = wrong_phase is_asked Phase.closing e refl s
