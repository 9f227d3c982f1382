-- ===== src/NetworkInterface/Expiring.antt =====
-- The walk over the times of the mappings, which erases those that are due.
use tcp_impliment.Common.{
  ℕ, ◌==◌, ◌<◌, ◌≡◌, refl, sym, ap, subst, ◌∙◌, arith, Bool, true, false, not, ◌&&◌, none, some,
  List, [], ◌∷◌, leb, lookup, erase, contains, lookup-erase, Bool-cases, inl, inr, if_true,
  if_false, ==_iff, get_or, is_some,
}
use tcp_impliment.Common.Words.{sub32}
use tcp_impliment.NetworkInterface.{NetworkInterface, forget, expire}

-- What a walk through `entries` that ends makes of an interface: nothing is added, no address keeps
-- a time among `entries` that is 30,000 ms old or older, and no other field changes.
pub record Walked (now : ℕ) (entries : List (ℕ × ℕ)) (i j : NetworkInterface) : Type 0 where
  pub timed :
      ((ip : ℕ) → contains ip i.ip_address_map ≡ contains ip i.map_time)
      → (ip : ℕ) → contains ip j.ip_address_map ≡ contains ip j.map_time
  pub kept : (ip time : ℕ) → lookup ip j.map_time ≡ some time → lookup ip i.map_time ≡ some time
  pub young :
      (ip time : ℕ)
      → lookup ip j.map_time ≡ some time
      → lookup ip entries ≡ some time
      → sub32 now time < 30000
  pub waiting : j.unsend_frame ≡ i.unsend_frame
  pub requests : j.latest_arp_time ≡ i.latest_arp_time
  pub clock : j.now_time ≡ i.now_time

not_one {κ} : {A : Type κ} {a : A} → none ≡ some a → ⊥
not_one e = cc

some_num : {m n : ℕ} → some m ≡ some n → m ≡ n
some_num e = cc

no_entry : (ip time : ℕ) → lookup ip [] ≡ some time → ⊥
unfolding lookup
no_entry ip time e = not_one e

lookup_here :
    (k time ip t : ℕ) (entries : List (ℕ × ℕ))
    → (ip == k) ≡ true
    → lookup ip ((k, time) ∷ entries) ≡ some t
    → time ≡ t
unfolding lookup
lookup_here k time ip t entries h e = some_num (sym (if_true _ _ h) ∙ e)

lookup_below :
    (k time ip t : ℕ) (entries : List (ℕ × ℕ))
    → (ip == k) ≡ false
    → lookup ip ((k, time) ∷ entries) ≡ some t
    → lookup ip entries ≡ some t
unfolding lookup
lookup_below k time ip t entries h e = sym (if_false _ _ h) ∙ e

erased_apart :
    (k ip t : ℕ) (m : List (ℕ × ℕ))
    → lookup ip (erase k m) ≡ some t
    → ((ip == k) ≡ false) × (lookup ip m ≡ some t)
erased_apart k ip t m e = elim (Bool-cases (k == ip)) [
  | inl same ↦ absurd (not_one (sym (lookup-erase k ip m ∙ if_true _ _ same) ∙ e))
  | inr apart ↦ (
    ground (arith, ==_iff k ip, ==_iff ip k, apart),
    sym (lookup-erase k ip m ∙ if_false _ _ apart) ∙ e,
  )
]

not_due : (n : ℕ) → leb 30000 n ≡ false → n < 30000
not_due n e = ground arith

forget-Walked :
    (now k time : ℕ) (entries : List (ℕ × ℕ)) (i j : NetworkInterface) (due : Bool)
    → leb 30000 (sub32 now time) ≡ due
    → Walked now entries (forget due k i) j
    → Walked now ((k, time) ∷ entries) i j
forget-Walked now k time entries i j true late w = record {
  timed = λ h. w.timed (λ ip.
      ap is_some (lookup-erase k ip i.ip_address_map)
      ∙ ground (arith, h ip)
      ∙ ap is_some (sym (lookup-erase k ip i.map_time)));
  kept = λ ip t e. (erased_apart k ip t i.map_time (w.kept ip t e)).1;
  young = λ ip t e f.
      w.young ip t e
        (lookup_below k time ip t entries (erased_apart k ip t i.map_time (w.kept ip t e)).0 f);
  waiting = w.waiting;
  requests = w.requests;
  clock = w.clock;
}
forget-Walked now k time entries i j false fresh w = record {
  timed = w.timed;
  kept = w.kept;
  young = λ ip t e f. elim (Bool-cases (ip == k)) [
    | inl here ↦
        subst (λ n. sub32 now n < 30000) (lookup_here k time ip t entries here f)
          (not_due (sub32 now time) fresh)
    | inr apart ↦ w.young ip t e (lookup_below k time ip t entries apart f)
  ];
  waiting = w.waiting;
  requests = w.requests;
  clock = w.clock;
}

pub expire-Walked :
    (readable : Bool) (now : ℕ) (entries : List (ℕ × ℕ)) (i j : NetworkInterface)
    → expire readable now entries i ≡ some j
    → Walked now entries i j
unfolding expire
expire-Walked readable now [] i j e = subst (Walked now [] i) (ap (λ o. get_or o i) e) (record {
  timed = λ h. h;
  kept = λ ip t f. f;
  young = λ ip t f g. absurd (no_entry ip t g);
  waiting = refl;
  requests = refl;
  clock = refl;
})
expire-Walked readable now ((k, time) ∷ entries) i j e =
    let due = leb 30000 (sub32 now time) in
    elim (Bool-cases (due && not readable)) [
      | inl stuck ↦ absurd (not_one (sym (if_true _ _ stuck) ∙ e))
      | inr on ↦
          forget-Walked now k time entries i j due refl
            (expire-Walked readable now entries (forget due k i) j (sym (if_false _ _ on) ∙ e))
    ]
