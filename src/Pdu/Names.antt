-- ===== src/Pdu/Names.antt =====
-- The methods String of pdu/: the names of numbers in error.go, type.go, variable_type.go, reason.go and
-- flags.go, and the texts of range.go, header.go, object_identifier.go, close.go, variable.go,
-- variables.go, notify.go and response.go.
pub mod Distinct
use go_agentx.Prelude.{
  ℕ, ◌/◌, ◌%◌, ◌^◌, Bool, Option, none, some, List, [], ◌∷◌, ◌++◌, ◌==◌, if◌then◌else◌, map,
}
use go_agentx.Prelude.Dict.{find}
use go_agentx.Prelude.Text.{codes}
use go_agentx.Oid.{to_string, decimal}
use go_agentx.Pdu.Header.{Header}
use go_agentx.Pdu.ObjectIdentifier
use go_agentx.Pdu.ObjectIdentifier.{ObjectIdentifier}
use go_agentx.Pdu.Range.{Range}
use go_agentx.Pdu.Variable.{Variable, GoValue}
use go_agentx.Pdu.Notify.{Notify}
use go_agentx.Pdu.Response.{Response}

abbrev pub Names : Type 0
Names = List (ℕ × List ℕ)

-- `switch`, and `fmt.Sprintf("…Unknown (%d)", n)` behind it.
unfoldable pub name_or_number : Names → List ℕ → ℕ → List ℕ
name_or_number names unknown n = elim (find n names) [
  | some name ↦ name
  | none ↦ unknown ++ (decimal n ++ (b')' ∷ []))
]

abbrev pub error_names : Names
error_names =
    (0, codes "ErrorNone")
    ∷ (5, codes "ErrorGenErr")
    ∷ (6, codes "ErrorNoAccess")
    ∷ (7, codes "ErrorWrongType")
    ∷ (8, codes "ErrorWrongLength")
    ∷ (9, codes "ErrorWrongEncoding")
    ∷ (10, codes "ErrorWrongValue")
    ∷ (11, codes "ErrorNoCreation")
    ∷ (12, codes "ErrorInconsistentValue")
    ∷ (13, codes "ErrorResourceUnavailable")
    ∷ (14, codes "ErrorCommitFailed")
    ∷ (15, codes "ErrorUndoFailed")
    ∷ (17, codes "ErrorNotWritable")
    ∷ (18, codes "ErrorInconsistentName")
    ∷ (256, codes "ErrorOpenFailed")
    ∷ (257, codes "ErrorNotOpen")
    ∷ (258, codes "ErrorIndexWrongType")
    ∷ (259, codes "ErrorIndexAlreadyAllocated")
    ∷ (260, codes "ErrorIndexNoneAvailable")
    ∷ (261, codes "ErrorIndexNotAllocated")
    ∷ (262, codes "ErrorUnsupportedContext")
    ∷ (263, codes "ErrorDuplicateRegistration")
    ∷ (264, codes "ErrorUnknownRegistration")
    ∷ (265, codes "ErrorUnknownAgentCaps")
    ∷ (266, codes "ErrorParse")
    ∷ (267, codes "ErrorRequestDenied")
    ∷ (268, codes "ErrorProcessing")
    ∷ []

abbrev pub variable_type_names : Names
variable_type_names =
    (2, codes "VariableTypeInteger")
    ∷ (4, codes "VariableTypeOctetString")
    ∷ (5, codes "VariableTypeNull")
    ∷ (6, codes "VariableTypeObjectIdentifier")
    ∷ (64, codes "VariableTypeIPAddress")
    ∷ (65, codes "VariableTypeCounter32")
    ∷ (66, codes "VariableTypeGauge32")
    ∷ (67, codes "VariableTypeTimeTicks")
    ∷ (68, codes "VariableTypeOpaque")
    ∷ (70, codes "VariableTypeCounter64")
    ∷ (128, codes "VariableTypeNoSuchObject")
    ∷ (129, codes "VariableTypeNoSuchInstance")
    ∷ (130, codes "VariableTypeEndOfMIBView")
    ∷ []

abbrev pub reason_names : Names
reason_names =
    (1, codes "ReasonOther")
    ∷ (2, codes "ReasonParseError")
    ∷ (3, codes "ReasonProtocolError")
    ∷ (4, codes "ReasonTimeouts")
    ∷ (5, codes "ReasonShutdown")
    ∷ (6, codes "ReasonByManager")
    ∷ []

abbrev pub type_names : Names
type_names =
    (1, codes "TypeOpen")
    ∷ (2, codes "TypeClose")
    ∷ (3, codes "TypeRegister")
    ∷ (4, codes "TypeUnregister")
    ∷ (5, codes "TypeGet")
    ∷ (6, codes "TypeGetNext")
    ∷ (7, codes "TypeGetBulk")
    ∷ (8, codes "TypeTestSet")
    ∷ (9, codes "TypeCommitSet")
    ∷ (10, codes "TypeUndoSet")
    ∷ (11, codes "TypeCleanupSet")
    ∷ (12, codes "TypeNotify")
    ∷ (13, codes "TypePing")
    ∷ (14, codes "TypeIndexAllocate")
    ∷ (15, codes "TypeIndexDeallocate")
    ∷ (16, codes "TypeAddAgentCaps")
    ∷ (17, codes "TypeRemoveAgentCaps")
    ∷ (18, codes "TypeResponse")
    ∷ []

unfoldable pub error_name : ℕ → List ℕ
error_name e = name_or_number error_names (codes "ErrorUnknown (") e

unfoldable pub variable_type_name : ℕ → List ℕ
variable_type_name t = name_or_number variable_type_names (codes "VariableTypeUnknown (") t

unfoldable pub reason_name : ℕ → List ℕ
reason_name r = name_or_number reason_names (codes "ReasonUnknown (") r

unfoldable pub type_name : ℕ → List ℕ
type_name t = elim (find t type_names) [ some name ↦ name | none ↦ codes "TypeUnknown" ]

-- `f&Flag… != 0` of the flag `1 << k`.
abbrev flag_name : ℕ → ℕ → List ℕ → List (List ℕ)
flag_name f k name = if f / 2 ^ k % 2 == 0 then [] else name ∷ []

unfoldable pub flag_names : ℕ → List (List ℕ)
flag_names f =
    flag_name f 0 (codes "FlagInstanceRegistration")
    ++ (flag_name f 1 (codes "FlagNewIndex")
        ++ (flag_name f 2 (codes "FlagAnyIndex")
            ++ (flag_name f 3 (codes "FlagNonDefaultContext")
                ++ flag_name f 4 (codes "FlagNetworkByteOrder"))))

-- `strings.Join`
abbrev pub join_by : List ℕ → List (List ℕ) → List ℕ
join_by sep [] = []
join_by sep (x ∷ []) = x
join_by sep (x ∷ y ∷ xs) = x ++ (sep ++ join_by sep (y ∷ xs))

unfoldable pub flags_name : ℕ → List ℕ
flags_name f = elim (flag_names f) [
  | [] ↦ codes "(FlagNone)"
  | name ∷ names ↦ codes "(" ++ (join_by (codes " | ") (name ∷ names) ++ codes ")")
]

unfoldable pub identifier_text : ObjectIdentifier → List ℕ
identifier_text o = to_string (ObjectIdentifier.get_identifier o)

unfoldable pub range_text : Range → List ℕ
range_text r =
    (if ObjectIdentifier.get_include r.from then codes "[" else codes "(")
    ++ (identifier_text r.from
        ++ (codes ", "
            ++ (identifier_text r.to
                ++ (if ObjectIdentifier.get_include r.to then codes "]" else codes ")"))))

unfoldable pub header_text : Header → List ℕ
header_text h = codes "(header " ++ (type_name h.type ++ codes ")")

unfoldable pub close_text : ℕ → List ℕ
close_text reason = codes "(close " ++ (reason_name reason ++ codes ")")

-- `shown` is the text that fmt makes of a value by the verb %v.
module _ (shown : GoValue → List ℕ) where
  unfoldable pub variable_text : Variable → List ℕ
  variable_text v =
      codes "(variable "
      ++ (variable_type_name v.type ++ (codes " = " ++ (shown v.value ++ codes ")")))

  unfoldable pub variables_text : List Variable → List ℕ
  variables_text vs =
      codes "[variables " ++ (join_by (codes ", ") (map variable_text vs) ++ codes "]")

  unfoldable pub notify_text : Notify → List ℕ
  notify_text n = codes "(notify " ++ (variables_text n.variables ++ codes ")")

  unfoldable pub response_text : Response → List ℕ
  response_text r = codes "(response " ++ (variables_text r.variables ++ codes ")")
