-- ===== src/EngineIo/ClientSocket/Chosen.antt =====
-- Which transport a client upgrades to.
use Prim.Native.String.{String}
use socket_io.Base.{
  ◌≡◌, refl, sym, ap, ap₂, ◌∙◌, arith, subst, Bool, true, false, not, ◌&&◌, ◌||◌, List, [], ◌∷◌,
  if◌then◌else◌, if-true, if-false, or_true, Bool-cases, inl, inr,
}
use socket_io.Base.Maps.{str_eq, str_eq_iff, str_eq_refl, str_elem}
use socket_io.EngineIo.ClientSocket.{
  Upgrade, upgraded, remove_first, prioritize, is_done, try_upgrades, maybe_upgrade,
}

either :
    {A : Type 0} (P : A → Type 0) (b : Bool) {x y : A}
    → (b ≡ true → P x)
    → (b ≡ false → P y)
    → P (if b then x else y)
either P true px py = px refl
either P false px py = py refl

-- One of the names that are tried.
pub record Found (probes : String → Bool) (upgrades transports : List String) (name : String)
    : Type 0 where
  pub wanted : str_elem name transports ≡ true
  pub offered : str_elem name upgrades ≡ true
  pub answered : probes name ≡ true

same_name : {n name : String} → upgraded n ≡ upgraded name → n ≡ name
same_name e = cc

holds_of_not : (b : Bool) → not b ≡ false → b ≡ true
holds_of_not true e = refl
holds_of_not false e = sym e

behind-Found :
    (probes : String → Bool) (upgrades : List String) (n : String) (transports : List String)
    (name : String)
    → Found probes upgrades transports name
    → Found probes upgrades (n ∷ transports) name
unfolding str_elem
behind-Found probes upgrades n transports name f = record {
  wanted = ap (λ b. str_eq n name || b) f.wanted ∙ or_true (str_eq n name);
  offered = f.offered;
  answered = f.answered;
}

try_upgrades-Found :
    (probes : String → Bool) (upgrades transports : List String) (name : String)
    → try_upgrades probes upgrades transports ≡ upgraded name
    → Found probes upgrades transports name
unfolding try_upgrades str_elem
try_upgrades-Found probes upgrades [] name = λ e. absurd cc
try_upgrades-Found probes upgrades (n ∷ transports) name =
    let later : Good (try_upgrades probes upgrades transports) = λ e.
      behind-Found probes upgrades n transports name
        (try_upgrades-Found probes upgrades transports name e) in
    either Good (not (str_elem n upgrades)) (λ _. later)
      (λ offered.
        either Good (not (str_eq n "websocket" || str_eq n "webtransport")) (λ _ e. absurd cc)
          (λ _.
            either Good (probes n)
              (λ answered e.
                subst (Found probes upgrades (n ∷ transports)) (same_name e)
                  (here (holds_of_not (str_elem n upgrades) offered) answered))
              (λ _. later)))
  where
    Good : Upgrade → Type 0
    Good u = u ≡ upgraded name → Found probes upgrades (n ∷ transports) name

    here : str_elem n upgrades ≡ true → probes n ≡ true → Found probes upgrades (n ∷ transports) n
    here offered answered = record {
      wanted = ap (λ b. b || str_elem n transports) (str_eq_refl n);
      offered = offered;
      answered = answered;
    }

elem-remove_first :
    (x name : String) (names : List String)
    → str_elem name (remove_first x names) ≡ true
    → str_elem name names ≡ true
unfolding str_elem
elem-remove_first x name [] = λ e. e
elem-remove_first x name (n ∷ names) =
    let rest = elem-remove_first x name names in
    either (λ ns. str_elem name ns ≡ true → (str_eq n name || str_elem name names) ≡ true)
      (str_eq n x) (λ _ e. ap (λ b. str_eq n name || b) e ∙ or_true (str_eq n name))
      (λ _ e. ground (arith, rest, e))

elem-prioritize :
    (name : String) (transports : List String)
    → str_elem name (prioritize transports) ≡ true
    → str_elem name transports ≡ true
unfolding str_elem
elem-prioritize name transports =
    let rest = elem-remove_first "webtransport" name transports in
    either (λ ns. str_elem name ns ≡ true → str_elem name transports ≡ true)
      (str_elem "webtransport" transports && str_elem "websocket" transports)
      (λ both e. elim (Bool-cases (str_eq "webtransport" name)) [
        | inl same ↦
            subst (λ n. str_elem n transports ≡ true) ((str_eq_iff "webtransport" name).0 same)
              (ground (arith, both))
        | inr other ↦ rest (ground (arith, other, e))
      ])
      (λ _ e. e)

-- The transport that was chosen.
pub record Chosen (probes : String → Bool) (transports upgrades : List String) (name : String)
    : Type 0 where
  pub found : Found probes upgrades transports name
  pub webtransport_first :
      name ≡ "websocket"
      → str_elem "webtransport" transports ≡ true
      → str_elem "webtransport" upgrades ≡ true
      → probes "webtransport" ≡ false

-- Where `webtransport` is first, another choice means that its probe failed.
first-failed :
    (probes : String → Bool) (upgrades transports : List String)
    → str_elem "webtransport" upgrades ≡ true
    → try_upgrades probes upgrades ("webtransport" ∷ transports) ≡ upgraded "websocket"
    → probes "webtransport" ≡ false
unfolding try_upgrades
first-failed probes upgrades transports offered e = elim (Bool-cases (probes "webtransport")) [
  | inr failed ↦ failed
  | inl answered ↦ absurd (differ (same_name (sym (chosen answered) ∙ e)))
]
  where
    differ : ◌≡◌ {A = String} "webtransport" "websocket" → ⊥
    differ s = cc

    chosen :
        probes "webtransport" ≡ true
        → try_upgrades probes upgrades ("webtransport" ∷ transports) ≡ upgraded "webtransport"
    chosen answered = if-false _ (ap not offered) ∙ if-false _ (ap not usable) ∙ if-true _ answered
      where
        usable : (str_eq "webtransport" "websocket" || str_eq "webtransport" "webtransport") ≡ true
        usable =
            ap (λ b. str_eq "webtransport" "websocket" || b) (str_eq_refl "webtransport")
            ∙ or_true (str_eq "webtransport" "websocket")

-- If a client upgrades, then to a transport that is among its own and among those offered by the
-- server, and whose probe was answered; and to `websocket`, where both sides have `webtransport`, only
-- if the probe of that one failed.
pub maybe_upgrade-Chosen :
    (probes : String → Bool) (current : String) (transports upgrades : List String) (name : String)
    → maybe_upgrade probes current transports upgrades ≡ upgraded name
    → Chosen probes transports upgrades name
unfolding maybe_upgrade
maybe_upgrade-Chosen probes current transports upgrades name =
    either (λ u. u ≡ upgraded name → Chosen probes transports upgrades name)
      (is_done current transports upgrades) (λ _ e. absurd cc)
      (λ _ e.
        let f = try_upgrades-Found probes upgrades (prioritize transports) name e in
        let wanted = elem-prioritize name transports f.wanted in
        record {
          found = record { wanted = wanted; offered = f.offered; answered = f.answered };
          webtransport_first = λ s here offered.
              let both : (str_elem "webtransport" transports && str_elem "websocket" transports)
                  ≡ true =
                ap₂ ◌&&◌ here (subst (λ n. str_elem n transports ≡ true) s wanted) in
              first-failed probes upgrades (remove_first "webtransport" transports) offered
                (ap (try_upgrades probes upgrades) (sym (if-true _ both)) ∙ e ∙ ap upgraded s);
        })
