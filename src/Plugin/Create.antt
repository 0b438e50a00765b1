-- ===== src/Plugin/Create.antt =====
-- What a filter's create function does to its surroundings: the node references and memory blocks
-- that it holds, and what it leaves in the map `out`. `D` is the filter's instance data.
use cat_syn.Prelude.{true, false, ℕ, suc, ◌≡◌, ℕ, suc, ◌≡◌, Option, none, some, String, ◌==◌}
use cat_syn.Prelude.Int.{ℤ}
use cat_syn.Plugin.Types.{VideoInfo, NodeRef}
use cat_syn.Plugin.Action.{Action, Flow, ok, stop, fault, release}
use cat_syn.Plugin.VsMap.{VsMap, prop_get_int, prop_get_node}

-- `VSFilter`, as `createFilter` sets it up.
pub record Filter (D : Type 0) : Type 0 where
  pub name : String
  pub vi : VideoInfo
  pub flags : ℕ
  pub instance_data : D

-- The value under "clip" in `out`.
pub data Clip (D : Type 0) : Type 0 where
  unset : Clip D
  node : NodeRef → Clip D
  filter : Filter D → Clip D

pub record CreateState (D : Type 0) : Type 0 where
  pub nodes : ℕ
  pub blocks : ℕ
  pub error : Option String
  pub clip : Clip D

abbrev pub Create : Type 0 → Type 0 → Type 0
Create D A = Action (CreateState D) A

module _ {D : Type 0} where
  -- `setError(out, message); return`
  abbrev pub ret_error : String → Create D (Unit {0})
  ret_error message s = (stop, record s { error = some message })

  -- `propGetInt` with a null `error`.
  abbrev pub get_int : VsMap → String → ℕ → Create D ℤ
  get_int m key i s =
      let r = prop_get_int m key i in elim (r.1 == 0) [ true ↦ (ok r.0, s) | false ↦ (fault, s) ]

  -- `propGetNode` with a null `error`; the reference is the caller's to release.
  abbrev pub get_node : VsMap → String → ℕ → Create D NodeRef
  get_node m key i s = elim (prop_get_node m key i).0 [
    | none ↦ (fault, s)
    | some v ↦ (ok v, record s { nodes = suc s.nodes })
  ]

  abbrev pub free_node : NodeRef → Create D (Unit {0})
  free_node v s = release s.nodes (λ k. record s { nodes = k }) s

  abbrev pub malloc : Create D (Unit {0})
  malloc s = (ok tt, record s { blocks = suc s.blocks })

  abbrev pub free : Create D (Unit {0})
  free s = release s.blocks (λ k. record s { blocks = k }) s

  -- `propSetNode(out, "clip", node, paReplace)`
  abbrev pub set_clip : NodeRef → Create D (Unit {0})
  set_clip v s = (ok tt, record s { clip = node v })

  -- `createFilter` runs the filter's init at once, which sets the video info of the new clip.
  abbrev pub create_filter : String → (D → VideoInfo) → ℕ → D → Create D (Unit {0})
  create_filter name init flags d s = (
    ok tt,
    record s {
      clip = filter (record { name = name; vi = init d; flags = flags; instance_data = d });
    },
  )

  -- Nothing held, nothing reported.
  abbrev pub start : CreateState D
  start = record { nodes = 0; blocks = 0; error = none; clip = unset }

-- `nfNoCache`
abbrev pub nf_no_cache : ℕ
nf_no_cache = 1

-- What `VSFunc::invoke` makes of a finished call, with the references and blocks still held: an
-- exception with the message, a filter that passes the node through, the new filter, or the map.
pub data Outcome (D : Type 0) : Type 0 where
  failed : String → ℕ → ℕ → Outcome D
  bypass : NodeRef → ℕ → ℕ → Outcome D
  created : Filter D → ℕ → ℕ → Outcome D
  empty : ℕ → ℕ → Outcome D
  crashed : Outcome D

abbrev pub report : {D : Type 0} → Option String → Clip D → ℕ → ℕ → Outcome D
report (some message) c n b = failed message n b
report none unset n b = empty n b
report none (node v) n b = bypass v n b
report none (filter f) n b = created f n b

abbrev pub finish : {D A : Type 0} → Flow A × CreateState D → Outcome D
finish (ok _, s) = report s.error s.clip s.nodes s.blocks
finish (stop, s) = report s.error s.clip s.nodes s.blocks
finish (fault, s) = crashed

abbrev pub invoke : {D A : Type 0} → Create D A → Outcome D
invoke m = finish (m start)

-- The new filter's free function releases all that its creation still holds, and a call that made no
-- filter holds nothing. Neither crashes.
abbrev pub Settles : {D : Type 0} → (D → Create D (Unit {0})) → Outcome D → Type 0
Settles free_data (failed message n b) = (n ≡ 0) × (b ≡ 0)
Settles free_data (bypass v n b) = (n ≡ 0) × (b ≡ 0)
Settles free_data (created f n b) =
    free_data f.instance_data (record start { nodes = n; blocks = b }) ≡ (ok tt, start)
Settles free_data (empty n b) = (n ≡ 0) × (b ≡ 0)
Settles free_data crashed = ⊥
