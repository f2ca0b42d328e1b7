-- ===== src/Deparse/Nulls/Sent.antt =====
-- A result that is sent, with what it means.
use pg_clickhouse.Prelude.{◌≡◌, refl, Option, some}
use pg_clickhouse.Deparse.Nulls.Emit.{lift, lift2, lift3}

-- The code does not end in an error, and its result has the property.
abbrev pub Sent {ℓ κ} : {A : Type ℓ} → Option A → (A → Type κ) → Type (ℓ ⊔ κ)
Sent {A = A} o P = (s : A) × (o ≡ some s) × P s

pub Sent-lift :
    {A B : Type 0} (P : A → Type 0) (Q : B → Type 0) (f : A → B) (o : Option A)
    → Sent o P
    → ((s : A) → P s → Q (f s))
    → Sent (lift f o) Q
unfolding lift
Sent-lift P Q f o (s, sent, means) step = (f s, rw sent refl, step s means)

pub Sent-lift2 :
    {A B C : Type 0} (P : A → Type 0) (Q : B → Type 0) (R : C → Type 0) (f : A → B → C)
    (o : Option A) (p : Option B)
    → Sent o P
    → Sent p Q
    → ((s : A) (t : B) → P s → Q t → R (f s t))
    → Sent (lift2 f o p) R
unfolding lift2 lift
Sent-lift2 P Q R f o p (s, sent, means) (t, sent', means') step =
    (f s t, rw (sent, sent') refl, step s t means means')

pub Sent-lift3 :
    {A B C D : Type 0} (P : A → Type 0) (Q : B → Type 0) (R : C → Type 0) (S : D → Type 0)
    (f : A → B → C → D) (o : Option A) (p : Option B) (q : Option C)
    → Sent o P
    → Sent p Q
    → Sent q R
    → ((s : A) (t : B) (u : C) → P s → Q t → R u → S (f s t u))
    → Sent (lift3 f o p q) S
unfolding lift3 lift2 lift
Sent-lift3 P Q R S f o p q (s, sent, means) (t, sent', means') (u, sent'', means'') step =
    (f s t u, rw (sent, sent', sent'') refl, step s t u means means' means'')
