-- ===== src/Client/SourceFile/Gives.antt =====
-- Results of source_file.rs and header.rs, and what holds of those that are not errors.
use corsa_bind.Common.{◌≡◌, refl, ap, subst, Bool, true, false, if◌then◌else◌}
use corsa_bind.Core.Error.{CorsaError, Result, ok, err, ◌>>=◌, >>=-eq-ok}
use corsa_bind.Client.SourceFile.Header.{refuse_if}

-- What a result gives, if it is not an error, satisfies `P`.
abbrev pub Gives {ℓ} : {T : Type 0} → (T → Type ℓ) → Result T → Type ℓ
Gives {T} P r = (t : T) → r ≡ ok t → P t

abbrev value_or : {T : Type 0} → T → Result T → T
value_or t (ok u) = u
value_or t (err e) = t

pub ok-Gives {ℓ} : {T : Type 0} (P : T → Type ℓ) (t : T) → P t → Gives P (ok t)
ok-Gives P t p u h = subst P (ap (value_or t) h) p

pub err-Gives {ℓ} : {T : Type 0} (P : T → Type ℓ) (e : CorsaError) → Gives P (err e)
err-Gives P e u h = cc

pub >>=-Gives {ℓ κ} :
    {T U : Type 0} (Q : T → Type κ) (P : U → Type ℓ) (r : Result T) (next : T → Result U)
    → Gives Q r
    → ((t : T) → Q t → Gives P (next t))
    → Gives P (r >>= next)
>>=-Gives Q P r next f g u h = let (t, p, q) = >>=-eq-ok r next h in g t (f t p) u q

pub then-Gives {ℓ} :
    {T U : Type 0} (P : U → Type ℓ) (r : Result T) (next : T → Result U)
    → ((t : T) → Gives P (next t))
    → Gives P (r >>= next)
then-Gives P r next g = >>=-Gives (λ t. Unit {0}) P r next (λ t h. tt) (λ t u. g t)

pub if-Gives {ℓ} :
    {T : Type 0} (P : T → Type ℓ) (b : Bool) (r s : Result T)
    → (b ≡ true → Gives P r)
    → Gives P s
    → Gives P (if b then r else s)
if-Gives P true r s f g = f refl
if-Gives P false r s f g = g

pub refuse_if-Gives : (b : Bool) (e : CorsaError) → Gives (λ t. b ≡ false) (refuse_if b e)
refuse_if-Gives true e t h = cc
refuse_if-Gives false e t h = refl
