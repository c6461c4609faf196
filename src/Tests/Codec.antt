-- ===== src/Tests/Codec.antt =====
-- Encoders and decoders that invert one another, to build a concrete `Json` from: a number is itself,
-- a list has its length in front.
use request_sudo.Base.{
  ℕ, zero, suc, ◌≡◌, refl, List, [], ◌∷◌, ◌++◌, append_assoc, Option, none, some, Text, length,
}

pub record Codec (A : Type 0) : Type 0 where
  pub enc : A → Text
  pub dec : Text → Option (A × Text)
  pub dec-enc : (a : A) (rest : Text) → dec (enc a ++ rest) ≡ some (a, rest)

abbrev then_some : {A B : Type 0} → Option A → (A → Option B) → Option B
then_some none f = none
then_some (some a) f = f a

abbrev dec_nat : Text → Option (ℕ × Text)
dec_nat [] = none
dec_nat (n ∷ rest) = some (n, rest)

abbrev pub nat : Codec ℕ
nat = record { enc = λ n. n ∷ []; dec = dec_nat; dec-enc = λ n rest. refl }

module _ {A B : Type 0} (c : Codec A) (d : Codec B) where
  abbrev enc_pair : A × B → Text
  enc_pair (a, b) = c.enc a ++ d.enc b

  abbrev dec_pair : Text → Option ((A × B) × Text)
  dec_pair t = then_some (c.dec t) (λ (a, r). then_some (d.dec r) (λ (b, r'). some ((a, b), r')))

  pub dec_pair-enc : (p : A × B) (rest : Text) → dec_pair (enc_pair p ++ rest) ≡ some (p, rest)
  dec_pair-enc (a, b) rest =
      rw (append_assoc (c.enc a) (d.enc b) rest, c.dec-enc a (d.enc b ++ rest), d.dec-enc b rest)

  abbrev pub pair : Codec (A × B)
  pair = record { enc = enc_pair; dec = dec_pair; dec-enc = dec_pair-enc }

module _ {A B : Type 0} (c : Codec A) (to : A → B) (from : B → A)
    (to-from : (b : B) → to (from b) ≡ b) where
  abbrev dec_iso : Text → Option (B × Text)
  dec_iso t = then_some (c.dec t) (λ (a, r). some (to a, r))

  pub dec_iso-enc : (b : B) (rest : Text) → dec_iso (c.enc (from b) ++ rest) ≡ some (b, rest)
  dec_iso-enc b rest = rw (c.dec-enc (from b) rest, to-from b)

  abbrev pub iso : Codec B
  iso = record { enc = λ b. c.enc (from b); dec = dec_iso; dec-enc = dec_iso-enc }

module _ {A : Type 0} (c : Codec A) where
  abbrev enc_all : List A → Text
  enc_all [] = []
  enc_all (a ∷ as') = c.enc a ++ enc_all as'

  abbrev dec_all : ℕ → Text → Option (List A × Text)
  dec_all zero t = some ([], t)
  dec_all (suc n) t =
      then_some (c.dec t) (λ (a, r). then_some (dec_all n r) (λ (as', r'). some (a ∷ as', r')))

  pub dec_all-enc :
      (xs : List A) (rest : Text) → dec_all (length xs) (enc_all xs ++ rest) ≡ some (xs, rest)
  dec_all-enc [] rest = refl
  dec_all-enc (x ∷ xs) rest = rw (
    append_assoc (c.enc x) (enc_all xs) rest,
    c.dec-enc x (enc_all xs ++ rest),
    dec_all-enc xs rest,
  )

  abbrev dec_list : Text → Option (List A × Text)
  dec_list [] = none
  dec_list (n ∷ t) = dec_all n t

  abbrev pub list : Codec (List A)
  list = record { enc = λ xs. length xs ∷ enc_all xs; dec = dec_list; dec-enc = dec_all-enc }

abbrev pub text : Codec Text
text = list nat
