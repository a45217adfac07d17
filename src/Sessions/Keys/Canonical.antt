-- ===== src/Sessions/Keys/Canonical.antt =====
-- The canonical key of a conversation, and its aliases.
use frost_agent.Prelude.{
  ℕ, ◌≡◌, refl, sym, ◌∙◌, ap, false, some, [], ◌∷◌, ◌++◌, arith, ◌==◌, ◌⊎◌, inl, inr, drop,
  Bool-cases, Option-cases, ==_iff, All,
}
use frost_agent.Text.{Text, codes, is_empty, is_space, trim_left, trim_space}
use frost_agent.Text.Trim.{
  Trimmed, trim_right, trim_space-id, trim_space-Trimmed, trim_right-drop, trim_right-append,
}
use frost_agent.Sessions.Keys.{
  cut_prefix, first_cut, group_prefixes, private_prefixes, canonical_trimmed, canonical_key,
  aliases_of, key_aliases,
}

pub cut_prefix-append : (p s cut : Text) → cut_prefix p s ≡ some cut → s ≡ p ++ cut
unfolding cut_prefix
cut_prefix-append [] s cut h = ground (arith, h)
cut_prefix-append (c ∷ p) [] cut h = ground arith
cut_prefix-append (c ∷ p) (d ∷ s) cut h = elim (Bool-cases (c == d)) [
  | inl same ↦
      let e : c ≡ d = (==_iff c d).0 same in
      let rest : s ≡ p ++ cut = cut_prefix-append p s cut (ground (arith, h, same)) in
      rw (e, rest) refl
  | inr other ↦ ground (arith, h, other)
]

-- Of three prefixes one was cut off.
first_cut-append :
    (p q r s cut : Text)
    → first_cut (p ∷ q ∷ r ∷ []) s ≡ some cut
    → (s ≡ p ++ cut) ⊎ ((s ≡ q ++ cut) ⊎ (s ≡ r ++ cut))
unfolding first_cut
first_cut-append p q r s cut h =
    ground (arith, cut_prefix-append p s cut, cut_prefix-append q s cut, cut_prefix-append r s cut)

-- What is left of a trimmed text behind its first `n` signs.
suffix-right : (n : ℕ) (s t : Text) → Trimmed s → drop n s ≡ t → trim_right t ≡ t
suffix-right n s t v e = ap trim_right (sym e) ∙ trim_right-drop n s v.right ∙ e

pub group_key-Trimmed :
    (s cut : Text)
    → Trimmed s
    → first_cut group_prefixes s ≡ some cut
    → Trimmed (codes "group:" ++ cut)
unfolding trim_left is_space
group_key-Trimmed s cut v h = record {
  left = refl;
  right =
      elim (first_cut-append (codes "aiocqhttp:group:") (codes "qq:group:") (codes "onebot:group:")
        s cut h) [
          | inl e ↦ suffix-right 10 s (codes "group:" ++ cut) v (rw e refl)
          | inr (inl e) ↦ suffix-right 3 s (codes "group:" ++ cut) v (rw e refl)
          | inr (inr e) ↦ suffix-right 7 s (codes "group:" ++ cut) v (rw e refl)
        ];
}

private_key-Trimmed :
    (s cut : Text)
    → Trimmed s
    → first_cut private_prefixes s ≡ some cut
    → Trimmed (codes "private:" ++ cut)
unfolding trim_left is_space
private_key-Trimmed s cut v h = record {
  left = refl;
  right =
      elim (first_cut-append (codes "aiocqhttp:private:") (codes "qq:private:")
        (codes "onebot:private:") s cut h) [
          | inl e ↦ suffix-right 10 s (codes "private:" ++ cut) v (rw e refl)
          | inr (inl e) ↦ suffix-right 3 s (codes "private:" ++ cut) v (rw e refl)
          | inr (inr e) ↦ suffix-right 7 s (codes "private:" ++ cut) v (rw e refl)
        ];
}

-- A key without a platform in front.
pub record Canonical (s : Text) : Type 0 where
  pub trimmed : Trimmed s
  pub fixed : canonical_trimmed s ≡ s

canonical_trimmed-Canonical : (s : Text) → Trimmed s → Canonical (canonical_trimmed s)
unfolding canonical_trimmed first_cut cut_prefix
canonical_trimmed-Canonical s v = elim (Option-cases (first_cut group_prefixes s)) [
  | inr (cut, e) ↦ rw e (record { trimmed = group_key-Trimmed s cut v e; fixed = refl })
  | inl no_group ↦ elim (Option-cases (first_cut private_prefixes s)) [
    | inr (cut, e) ↦
        rw (no_group, e) (record { trimmed = private_key-Trimmed s cut v e; fixed = refl })
    | inl no_private ↦
        rw (no_group, no_private) (record { trimmed = v; fixed = rw (no_group, no_private) refl })
  ]
]

pub canonical_key-Canonical : (s : Text) → Canonical (canonical_key s)
unfolding canonical_key
canonical_key-Canonical s = elim (Bool-cases (is_empty (trim_space s))) [
  | inl blank ↦ rw blank (record {
    trimmed = record { left = unfold trim_left in refl; right = unfold trim_right in refl };
    fixed = unfold canonical_trimmed first_cut cut_prefix in refl;
  })
  | inr solid ↦ rw solid (canonical_trimmed-Canonical (trim_space s) (trim_space-Trimmed s))
]

canonical_key-id : (s : Text) → Canonical s → canonical_key s ≡ s
unfolding canonical_key
canonical_key-id [] v = unfold trim_space trim_left in refl
canonical_key-id (c ∷ s) v = rw (trim_space-id (c ∷ s) v.trimmed) v.fixed

-- The canonical key of a canonical key is the key itself.
pub canonical_key_idem : (s : Text) → canonical_key (canonical_key s) ≡ canonical_key s
canonical_key_idem s = canonical_key-id (canonical_key s) (canonical_key-Canonical s)

canonical_key-Trimmed :
    (s c : Text) → Trimmed s → is_empty s ≡ false → canonical_trimmed s ≡ c → canonical_key s ≡ c
unfolding canonical_key
canonical_key-Trimmed s c v some_left e = rw (trim_space-id s v, some_left) e

-- A platform in front of a canonical key changes nothing.
group_alias :
    (id : Text)
    → trim_right (codes "group:" ++ id) ≡ codes "group:" ++ id
    → (canonical_key (codes "aiocqhttp:group:" ++ id) ≡ codes "group:" ++ id)
      × (canonical_key (codes "qq:group:" ++ id) ≡ codes "group:" ++ id)
      × (canonical_key (codes "onebot:group:" ++ id) ≡ codes "group:" ++ id)
unfolding canonical_trimmed first_cut cut_prefix trim_left is_space
group_alias id v =
    let key = codes "group:" ++ id in
    (
      canonical_key-Trimmed (codes "aiocqhttp:group:" ++ id) key
          (record { left = refl; right = trim_right-append (codes "aiocqhttp:") key refl v }) refl
          refl,
      canonical_key-Trimmed (codes "qq:group:" ++ id) key
          (record { left = refl; right = trim_right-append (codes "qq:") key refl v }) refl refl,
      canonical_key-Trimmed (codes "onebot:group:" ++ id) key
          (record { left = refl; right = trim_right-append (codes "onebot:") key refl v }) refl
          refl,
    )

private_alias :
    (id : Text)
    → trim_right (codes "private:" ++ id) ≡ codes "private:" ++ id
    → (canonical_key (codes "aiocqhttp:private:" ++ id) ≡ codes "private:" ++ id)
      × (canonical_key (codes "qq:private:" ++ id) ≡ codes "private:" ++ id)
      × (canonical_key (codes "onebot:private:" ++ id) ≡ codes "private:" ++ id)
unfolding canonical_trimmed first_cut cut_prefix trim_left is_space
private_alias id v =
    let key = codes "private:" ++ id in
    (
      canonical_key-Trimmed (codes "aiocqhttp:private:" ++ id) key
          (record { left = refl; right = trim_right-append (codes "aiocqhttp:") key refl v }) refl
          refl,
      canonical_key-Trimmed (codes "qq:private:" ++ id) key
          (record { left = refl; right = trim_right-append (codes "qq:") key refl v }) refl refl,
      canonical_key-Trimmed (codes "onebot:private:" ++ id) key
          (record { left = refl; right = trim_right-append (codes "onebot:") key refl v }) refl
          refl,
    )

aliases_of-Canonical : (c : Text) → Canonical c → All (λ a. canonical_key a ≡ c) (aliases_of c)
unfolding aliases_of
aliases_of-Canonical c v = elim (Option-cases (cut_prefix (codes "group:") c)) [
  | inr (id, e) ↦
      let whole = cut_prefix-append (codes "group:") c id e in
      let (a, q, o) = group_alias id (ap trim_right (sym whole) ∙ v.trimmed.right ∙ whole) in
      rw e (canonical_key-id c v, (a ∙ sym whole, (q ∙ sym whole, (o ∙ sym whole, tt))))
  | inl no_group ↦ elim (Option-cases (cut_prefix (codes "private:") c)) [
    | inr (id, e) ↦
        let whole = cut_prefix-append (codes "private:") c id e in
        let (a, q, o) = private_alias id (ap trim_right (sym whole) ∙ v.trimmed.right ∙ whole) in
        rw (no_group, e)
          (canonical_key-id c v, (a ∙ sym whole, (q ∙ sym whole, (o ∙ sym whole, tt))))
    | inl no_private ↦ rw (no_group, no_private) (canonical_key-id c v, tt)
  ]
]

-- Every alias that SessionKeyAliases lists for a key has the key's canonical key.
pub aliases_agree :
    (session_id : Text)
    → All (λ a. canonical_key a ≡ canonical_key session_id) (key_aliases session_id)
unfolding key_aliases
aliases_agree session_id = elim (Bool-cases (is_empty (canonical_key session_id))) [
  | inl blank ↦ rw blank tt
  | inr solid ↦
      rw solid
        (aliases_of-Canonical (canonical_key session_id) (canonical_key-Canonical session_id))
]
