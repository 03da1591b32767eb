-- ===== src/Server/Reads/Reach/Machines.antt =====
-- What `defender_machines` of src/server.rs reaches.
use microsoft_defender_mcp.Prelude.{
  ℕ, String, ◌≡◌, refl, ◌⊎◌, inl, inr, Bool, true, [], ◌∷◌, ◌++◌, arith, ok, All, All-append,
  all-eq-true_iff, All-map, OnOk-bind,
}
use microsoft_defender_mcp.Auth.Identity.{
  PermissionCategory, read_graph, read_write_named, read_endpoint,
}
use microsoft_defender_mcp.Client.{Client, endpoint_get_as, endpoint_get_with_odata_as}
use microsoft_defender_mcp.Client.Paths.{
  is_pchar, Confined, is_base, is_confined, base-Confined, segment-Follows, IsSegment,
}
use microsoft_defender_mcp.Constants.{find_by_ip_max_age_days}
use microsoft_defender_mcp.Inputs.Args.{Misfit}
use microsoft_defender_mcp.Inputs.Tools.{MachinesInput}
use microsoft_defender_mcp.Server.Device.{is_some}
use microsoft_defender_mcp.Server.Reads.{serve, child_of}
use microsoft_defender_mcp.Server.Reads.Literal.{plain-IsSegment}
use microsoft_defender_mcp.Server.Reads.Machines.{
  defender_machines, machines_action_table, find_by_ip, machine_page, machine_of, machine_alerts,
  machine_vulnerabilities, machine_missing_kbs, ip_path, tag_fields, page_fields, page,
}
use microsoft_defender_mcp.Server.Reads.Reach.Devices.{
  defender_endpoint_machine_find_by_tag-Bounded, defender_endpoint_machine_get-Bounded,
  defender_endpoint_machine_list-Bounded, defender_endpoint_machine_list_software-Bounded,
  defender_endpoint_machine_logged_on_users-Bounded,
  defender_endpoint_machine_security_recommendations-Bounded,
}
use microsoft_defender_mcp.Server.Reads.Reach.Entities.{
  defender_endpoint_domain_related_machines-Bounded, defender_endpoint_domain_statistics-Bounded,
  defender_endpoint_file_get-Bounded, defender_endpoint_file_related_machines-Bounded,
  defender_endpoint_file_statistics-Bounded, defender_endpoint_ip_statistics-Bounded,
  defender_endpoint_user_related_machines-Bounded,
}
use microsoft_defender_mcp.Server.Reads.Safe.{
  Reaches, Reaching, Bounded, child_of-Confined, machine_id-IsChild,
}
use microsoft_defender_mcp.Server.Reads.Scope.{ReadConfig, scope_of}
use microsoft_defender_mcp.Server.Reads.Scoped.{
  needs_scope, scope_requested, unless_blocked-Bounded, without-Bounded, serve-Reaches,
}
use microsoft_defender_mcp.Server.Reads.Steps.{
  Each, no_more, ◌also◌, Bounded-err, Bounded-fetch, Bounded-after, call_action-Bounded,
  select_action-Bounded,
}
use microsoft_defender_mcp.Server.Tools.{Libraries, required}
use microsoft_defender_mcp.Text.{Text, lit, text_eq}
use microsoft_defender_mcp.Validation.Hashes.{validate_machine_id}
use microsoft_defender_mcp.Validation.Indicators.{validate_recent_timestamp}
use microsoft_defender_mcp.Validation.Indicators.Rules.{validate_recent_timestamp_iff}
use microsoft_defender_mcp.Validation.Ip.{validate_ip_address}
use microsoft_defender_mcp.Validation.Ip.Safe.{validate_ip_address_safe}
use microsoft_defender_mcp.Validation.Odata.{validate_endpoint_odata_params}

module _ (libraries : Libraries) (explain : Misfit → Text) (config : ReadConfig)
    (input : MachinesInput)
    (utc_chars : (n : ℕ) → All (λ c. is_pchar c ≡ true) (libraries.chrono.format_utc n)) where
  ip_call-IsSegment :
      (ip timestamp : Text)
      → All (λ c. is_pchar c ≡ true) ip
      → All (λ c. is_pchar c ≡ true) timestamp
      → IsSegment (lit "findbyip(ip='" ++ (ip ++ (lit "',timestamp=" ++ (timestamp ++ lit ")"))))
  unfolding lit
  ip_call-IsSegment ip timestamp h k =
      let closed = All-append (λ c. is_pchar c ≡ true) timestamp (lit ")") k (refl, tt) in
      let stamped =
        All-append (λ c. is_pchar c ≡ true) (lit "',timestamp=") (timestamp ++ lit ")")
          ((all-eq-true_iff is_pchar (lit "',timestamp=")).0 refl) closed in
      let addressed =
        All-append (λ c. is_pchar c ≡ true) ip (lit "',timestamp=" ++ (timestamp ++ lit ")")) h
          stamped in
      plain-IsSegment b'f' _ refl (
        All-append (λ c. is_pchar c ≡ true) (lit "findbyip(ip='")
          (ip ++ (lit "',timestamp=" ++ (timestamp ++ lit ")")))
          ((all-eq-true_iff is_pchar (lit "findbyip(ip='")).0 refl) addressed)

  stamp-chars :
      (ts utc : Text)
      → validate_recent_timestamp libraries.chrono ts find_by_ip_max_age_days ≡ ok utc
      → All (λ c. is_pchar c ≡ true) utc
  stamp-chars ts utc f =
      let (dt, _, _, _, same) =
        (validate_recent_timestamp_iff libraries.chrono ts find_by_ip_max_age_days utc).0 f in
      rw same (utc_chars dt)

  ip_path-Confined :
      (given ip ts utc : Text)
      → validate_ip_address given ≡ ok ip
      → validate_recent_timestamp libraries.chrono ts find_by_ip_max_age_days ≡ ok utc
      → Confined (ip_path libraries explain config input ip utc)
  unfolding is_base lit text_eq
  ip_path-Confined given ip ts utc e f =
      let (_, _, safe) = validate_ip_address_safe given ip e in
      let address = All-map _ (λ c. is_pchar c ≡ true) (λ c h. ground arith) ip safe in
      let stamp = stamp-chars ts utc f in
      base-Confined (lit "/api/machines/")
        (lit "findbyip(ip='" ++ (ip ++ (lit "',timestamp=" ++ (utc ++ lit ")")))) refl
        (segment-Follows _ (ip_call-IsSegment ip utc address stamp))

  find_by_ip-Bounded :
      Bounded (needs_scope "find_by_ip") (find_by_ip libraries explain config input)
  unfolding find_by_ip scope_of
  find_by_ip-Bounded =
      without-Bounded _
        ((is_some input.machine_id, "machine_id")
          ∷ tag_fields libraries explain config input (page_fields libraries explain config input))
        "find_by_ip" _
        (OnOk-bind (Reaching _) (required input.id "id" input.action) _ λ given _.
          OnOk-bind (Reaching _) (validate_ip_address given) _ λ ip e.
            OnOk-bind (Reaching _) (required input.timestamp "timestamp" input.action) _ λ ts _.
              OnOk-bind (Reaching _)
                (validate_recent_timestamp libraries.chrono ts find_by_ip_max_age_days) _
                λ utc f.
                  Bounded-fetch _
                    (endpoint_get_as (ip_path libraries explain config input ip utc) []
                      read_write_named)
                    (record {
                      path = ip_path-Confined given ip ts utc e f;
                      reading = inr (inr refl);
                    }))

  machine_page-Bounded :
      (category : PermissionCategory) (action rest : String)
      → (category ≡ read_graph) ⊎ (category ≡ read_endpoint) ⊎ (needs_scope action ≡ true)
      → is_confined (lit rest) ≡ true
      → Bounded
          (needs_scope action)
          (machine_page libraries explain config input category action rest)
  unfolding is_base is_confined lit text_eq scope_of
  machine_page-Bounded category action rest plain r =
      without-Bounded _
        ((is_some input.timestamp, "timestamp") ∷ tag_fields libraries explain config input [])
        action _
        (OnOk-bind (Reaching _) (machine_of libraries explain config input action) _ λ given _.
          OnOk-bind (Reaching _) (validate_machine_id libraries.regex given) _ λ id e.
            Bounded-after _ (validate_endpoint_odata_params input.top input.skip) _ (
              Bounded-fetch _
                (endpoint_get_with_odata_as (child_of libraries.percent "/api/machines/" id rest)
                  (page libraries explain config input) category)
                (record {
                  path =
                      child_of-Confined libraries.percent "/api/machines/" id rest refl r
                        (machine_id-IsChild libraries.regex given id e);
                  reading = plain;
                })))

  machine_missing_kbs-Bounded :
      (w : Bool) → Bounded w (machine_missing_kbs libraries explain config input)
  unfolding machine_missing_kbs is_base is_confined lit text_eq
  machine_missing_kbs-Bounded w =
      without-Bounded w
        ((is_some input.timestamp, "timestamp")
          ∷ tag_fields libraries explain config input (page_fields libraries explain config input))
        "machine_missing_kbs" _
        (OnOk-bind (Reaching w) (machine_of libraries explain config input "machine_missing_kbs") _
          λ given _. OnOk-bind (Reaching w) (validate_machine_id libraries.regex given) _ λ id e.
            Bounded-fetch w
              (endpoint_get_as (child_of libraries.percent "/api/machines/" id "/getmissingkbs") []
                read_endpoint)
              (record {
                path =
                    child_of-Confined libraries.percent "/api/machines/" id "/getmissingkbs" refl
                      refl (machine_id-IsChild libraries.regex given id e);
                reading = inr (inl refl);
              }))

  machine_alerts-Bounded :
      Bounded (needs_scope "machine_alerts") (machine_alerts libraries explain config input)
  unfolding machine_alerts scope_of is_confined lit text_eq
  machine_alerts-Bounded =
      machine_page-Bounded read_write_named "machine_alerts" "/alerts" (inr (inr refl)) refl

  machine_vulnerabilities-Bounded :
      Bounded
        (needs_scope "machine_vulnerabilities")
        (machine_vulnerabilities libraries explain config input)
  unfolding machine_vulnerabilities is_confined lit text_eq
  machine_vulnerabilities-Bounded =
      machine_page-Bounded read_endpoint "machine_vulnerabilities" "/vulnerabilities"
        (inr (inl refl)) refl

  defender_machines-Each : Each needs_scope (machines_action_table libraries explain config input)
  defender_machines-Each =
      call_action-Bounded _ explain _ _ (defender_endpoint_machine_list-Bounded libraries _)
      also call_action-Bounded _ explain _ _ (defender_endpoint_machine_get-Bounded libraries _)
      also call_action-Bounded _ explain _ _
          (defender_endpoint_machine_logged_on_users-Bounded libraries _)
      also call_action-Bounded _ explain _ _
          (defender_endpoint_machine_find_by_tag-Bounded libraries _)
      also call_action-Bounded _ explain _ _
          (defender_endpoint_machine_list_software-Bounded libraries _)
      also call_action-Bounded _ explain _ _
          (defender_endpoint_machine_security_recommendations-Bounded libraries _)
      also call_action-Bounded _ explain _ _ (defender_endpoint_ip_statistics-Bounded libraries _)
      also call_action-Bounded _ explain _ _
          (defender_endpoint_domain_statistics-Bounded libraries _)
      also call_action-Bounded _ explain _ _
          (defender_endpoint_domain_related_machines-Bounded libraries _)
      also call_action-Bounded _ explain _ _ (defender_endpoint_file_get-Bounded libraries _)
      also call_action-Bounded _ explain _ _ (defender_endpoint_file_statistics-Bounded libraries _)
      also call_action-Bounded _ explain _ _
          (defender_endpoint_file_related_machines-Bounded libraries _)
      also call_action-Bounded _ explain _ _
          (defender_endpoint_user_related_machines-Bounded libraries _)
      also find_by_ip-Bounded
      also machine_alerts-Bounded
      also machine_vulnerabilities-Bounded
      also machine_missing_kbs-Bounded _
      also no_more

  -- Every request that `defender_machines` makes has a path each of whose segments names a child, so that no
  -- value of the input leads elsewhere, and is under a category of reads, unless the action is one that
  -- needs a write-named scope and a user did not sign in under `--read-only`.
  pub defender_machines-Reaches :
      (client : Client)
      → All
          (Reaches (scope_requested config input.action))
          (serve client (defender_machines libraries explain config input)).1
  unfolding defender_machines
  defender_machines-Reaches client = serve-Reaches _ client _ (
      unless_blocked-Bounded config input.action _ (
        select_action-Bounded needs_scope input.action
          (machines_action_table libraries explain config input) _ defender_machines-Each
          (Bounded-err _ _)))
