-- ===== src/Http/Status.antt =====
-- http::Status (include/libnode/http/status.h and src/http/status.cpp).
use Prim.Native.String.{String}
use libnode.Base.{ℕ, Option, none, some, List, [], ◌∷◌, if◌then◌else◌, ◌==◌, codes}

-- LIBNODE_HTTP_STATUS_MAP with LIBNODE_HTTP_STATUS_MSG_MAP.
abbrev pub status_messages : List (ℕ × String)
status_messages =
    (100, "Continue")
    ∷ (101, "Switching Protocols")
    ∷ (102, "Processing")
    ∷ (200, "OK")
    ∷ (201, "Created")
    ∷ (202, "Accepted")
    ∷ (203, "Non-Authoritative Information")
    ∷ (204, "No Content")
    ∷ (205, "Reset Content")
    ∷ (206, "Partial Content")
    ∷ (207, "Multi-Status")
    ∷ (300, "Multiple Choices")
    ∷ (301, "Moved Permanently")
    ∷ (302, "Found")
    ∷ (303, "See Other")
    ∷ (304, "Not Modified")
    ∷ (305, "Use Proxy")
    ∷ (307, "Temporary Redirect")
    ∷ (400, "Bad Request")
    ∷ (401, "Unauthorized")
    ∷ (402, "Payment Required")
    ∷ (403, "Forbidden")
    ∷ (404, "Not Found")
    ∷ (405, "Method Not Allowed")
    ∷ (406, "Not Acceptable")
    ∷ (407, "Proxy Authentication Required")
    ∷ (408, "Request Timeout")
    ∷ (409, "Conflict")
    ∷ (410, "Gone")
    ∷ (411, "Length Required")
    ∷ (412, "Precondition Failed")
    ∷ (413, "Request Entity Too Large")
    ∷ (414, "Request-URI Too Long")
    ∷ (415, "Unsupported Media Type")
    ∷ (416, "Requested Range Not Satisfiable")
    ∷ (417, "Expectation Failed")
    ∷ (422, "Unprocessable Entity")
    ∷ (423, "Locked")
    ∷ (424, "Failed Dependency")
    ∷ (500, "Internal Server Error")
    ∷ (501, "Not Implemented")
    ∷ (502, "Bad Gateway")
    ∷ (503, "Service Unavailable")
    ∷ (504, "Gateway Timeout")
    ∷ (505, "HTTP Version Not Supported")
    ∷ (507, "Insufficient Storage")
    ∷ []

unfoldable pub find_message : ℕ → List (ℕ × String) → String
find_message code [] = "Unknown"
find_message code ((c, msg) ∷ rest) = if c == code then msg else find_message code rest

-- Status::create(): the message of the status.
unfoldable pub status_message : ℕ → Option (List ℕ) → List ℕ
status_message code (some msg) = msg
status_message code none = codes (find_message code status_messages)
