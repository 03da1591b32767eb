-- ===== src/Cli/Gating.antt =====
-- Which tools and actions the command line turns on.
use microsoft_defender_mcp.Prelude.{
  String, ◌≡◌, refl, ◌↔◌, inl, inr, Bool, true, false, some, List, [], ◌∷◌, arith, str_eq, eq_iff,
  Bool-cases,
}
use microsoft_defender_mcp.Cli.Categories.{
  MutatingTool, tool_name, from_name, from_flags, tool_enabled, any_category, find_name, all_tools,
}

-- The flag that turns a tool on.
abbrev pub flag_of : MutatingTool → (live_response device_response indicators triage : Bool) → Bool
flag_of MutatingTool.response live device ind tri = live
flag_of MutatingTool.device_response live device ind tri = device
flag_of MutatingTool.indicators live device ind tri = ind
flag_of MutatingTool.triage live device ind tri = tri

some_tool :
    (read_only live device off ind tri : Bool)
    → any_category (from_flags read_only live device off ind tri) ≡ true
    → (t : MutatingTool) × (tool_enabled (from_flags read_only live device off ind tri) t ≡ true)
unfolding from_flags tool_enabled any_category
some_tool true live device off ind tri h = absurd (cc)
some_tool false true device off ind tri h = (MutatingTool.response, refl)
some_tool false false true off ind tri h = (MutatingTool.device_response, refl)
some_tool false false false off true tri h = (MutatingTool.indicators, refl)
some_tool false false false off false tri h = (MutatingTool.triage, h)

-- With the command line's flags a tool is on exactly if the server is not read-only and the tool's own
-- flag is given; offboarding, exactly if besides its own flag the one of device response is given; and
-- there is a category exactly if some tool is on.
pub from_flags_iff :
    (read_only live device off ind tri : Bool)
    → ((t : MutatingTool)
        → (tool_enabled (from_flags read_only live device off ind tri) t ≡ true)
          ↔ ((read_only ≡ false) × (flag_of t live device ind tri ≡ true)))
      × (((from_flags read_only live device off ind tri).offboarding ≡ true)
          ↔ ((read_only ≡ false) × (off ≡ true) × (device ≡ true)))
      × ((any_category (from_flags read_only live device off ind tri) ≡ true) ↔ (
          (t : MutatingTool) × (tool_enabled (from_flags read_only live device off ind tri) t
            ≡ true)))
unfolding from_flags tool_enabled any_category
from_flags_iff read_only live device off ind tri =
    (each, ground arith, (some_tool read_only live device off ind tri, λ h. any_tool h.0 h.1))
  where
    each :
        (t : MutatingTool)
        → (tool_enabled (from_flags read_only live device off ind tri) t ≡ true)
          ↔ ((read_only ≡ false) × (flag_of t live device ind tri ≡ true))
    each MutatingTool.response = ground arith
    each MutatingTool.device_response = ground arith
    each MutatingTool.indicators = ground arith
    each MutatingTool.triage = ground arith

    any_tool :
        (t : MutatingTool)
        → tool_enabled (from_flags read_only live device off ind tri) t ≡ true
        → any_category (from_flags read_only live device off ind tri) ≡ true
    any_tool MutatingTool.response h = ground arith
    any_tool MutatingTool.device_response h = ground arith
    any_tool MutatingTool.indicators h = ground arith
    any_tool MutatingTool.triage h = ground arith

-- A tool is found by a name exactly if it is the tool's own name.
pub from_name_iff :
    (name : String) (t : MutatingTool) → (from_name name ≡ some t) ↔ (tool_name t ≡ name)
unfolding from_name find_name tool_name
from_name_iff name t = (sound all_tools, λ e. rw (← e) (trips t))
  where
    sound : (ts : List MutatingTool) → find_name name ts ≡ some t → tool_name t ≡ name
    sound [] h = cc
    sound (u ∷ ts) h = elim (Bool-cases (str_eq (tool_name u) name)) [
      | inl same ↦
          let e : some u ≡ some t = ground arith in
          let p = (eq_iff (tool_name u) name).0 same in let q : u ≡ t = cc in rw (← q) p
      | inr other ↦ sound ts (ground arith)
    ]

    trips : (t : MutatingTool) → from_name (tool_name t) ≡ some t
    trips MutatingTool.response = refl
    trips MutatingTool.device_response = refl
    trips MutatingTool.indicators = refl
    trips MutatingTool.triage = refl
