-- ===== src/Agent/Members.antt =====
-- `ShowMembers` of src/library/agent/server.go. The members that consul answers, the name of the host
-- and the address of the node are arguments; texts are ASCII, so that a width counts bytes.
use wing_binlog_go.Prelude.{
  ℕ, zero, suc, ◌-◌, Bool, not, Option, none, some, List, [], ◌∷◌, ◌++◌, Bytes, text, decimal,
  length, if◌then◌else◌,
}
use wing_binlog_go.Agent.{ServiceMember}

unfoldable pub spaces : ℕ → Bytes
spaces zero = []
spaces (suc n) = b' ' ∷ spaces n

-- `%-6s` and its like.
unfoldable pub left : ℕ → Bytes → Bytes
unfolding spaces
left width s = s ++ spaces (width - length s)

abbrev line_end : Bytes
line_end = 13 ∷ 10 ∷ []

abbrev double_rule : Bytes
double_rule = text "======+=============================================+==========+==============="

abbrev single_rule : Bytes
single_rule = text "------+---------------------------------------------+----------+---------------"

unfoldable pub row : Bytes → Bytes → Bytes → Bytes → Bytes
unfolding left
row index node role status =
    left 6 index
    ++ (text "| "
        ++ (left 43 node ++ (text " | " ++ (left 8 role ++ (text " | " ++ (status ++ line_end))))))

unfoldable pub rows : ℕ → List ServiceMember → Bytes
unfolding row
rows i [] = []
rows i (m ∷ ms) =
    row (decimal i) (text "(" ++ (m.service_ip ++ (text ":" ++ (decimal m.port ++ text ")"))))
      (if m.is_leader then text "leader" else text "follower") m.member_status
    ++ rows (suc i) ms

-- `ShowMembers`; a nil list and an error are `none`.
unfoldable pub show_members : Bool → Bytes → Bytes → Option (List ServiceMember) → Bytes
unfolding rows row
show_members enable hostname address none = if not enable then text "agent is not enable" else []
show_members enable hostname address (some members) =
    if not enable
    then text "agent is not enable"
    else text "current node: "
      ++ (hostname
          ++ (text "("
              ++ (address
                  ++ (text ")"
                      ++ (line_end
                          ++ (text "cluster size: "
                              ++ (decimal (length members)
                                  ++ (text " node(s)"
                                      ++ (line_end
                                          ++ (double_rule
                                              ++ (line_end
                                                  ++ (row (text "index") (text "node") (text "role")
                                                        (text "status")
                                                      ++ (single_rule
                                                          ++ (line_end
                                                            ++ (rows 0 members
                                                            ++ (single_rule
                                                            ++ line_end))))))))))))))))
