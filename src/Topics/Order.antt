-- ===== src/Topics/Order.antt =====
-- The order of texts.
use dds_pipe.Base.{◌≡◌, refl, true, false, [], ◌∷◌, arith, Key, ℕ_discrete}
use dds_pipe.Rpc.Text.{Text}
use dds_pipe.Topics.{text_eq, text_lt}

pub text_eq-eq : (s t : Text) → text_eq s t ≡ true → s ≡ t
unfolding text_eq
text_eq-eq [] [] h = refl
text_eq-eq [] (d ∷ t) h = cc
text_eq-eq (c ∷ s) [] h = cc
text_eq-eq (c ∷ s) (d ∷ t) h = ground (arith, text_eq-eq s t)

pub text_eq_self : (s : Text) → text_eq s s ≡ true
unfolding text_eq
text_eq_self [] = refl
text_eq_self (c ∷ s) = ground (arith, text_eq_self s)

pub text_lt_self : (s : Text) → text_lt s s ≡ false
unfolding text_lt
text_lt_self [] = refl
text_lt_self (c ∷ s) = ground (arith, text_lt_self s)

pub text_lt_trans : (s t u : Text) → text_lt s t ≡ true → text_lt t u ≡ true → text_lt s u ≡ true
unfolding text_lt
text_lt_trans s t [] p q = cc
text_lt_trans s [] (e ∷ u) p q = cc
text_lt_trans [] (d ∷ t) (e ∷ u) p q = refl
text_lt_trans (c ∷ s) (d ∷ t) (e ∷ u) p q = ground (arith, text_lt_trans s t u)

-- Texts that the order does not tell apart are equal.
pub text_lt-connected : (s t : Text) → text_lt s t ≡ false → text_lt t s ≡ false → s ≡ t
unfolding text_lt
text_lt-connected [] [] p q = refl
text_lt-connected [] (d ∷ t) p q = cc
text_lt-connected (c ∷ s) [] p q = cc
text_lt-connected (c ∷ s) (d ∷ t) p q = ground (arith, text_lt-connected s t)

unfoldable pub text_dec : Discrete Text
text_dec = hlevel ℕ_discrete

-- Containers by text, and by a topic: two topics are one key when their unique names are equal.
instance abbrev pub text_key : Key Text
text_key = record { dec = text_dec; ltb = text_lt }
