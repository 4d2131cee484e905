-- ===== src/Analysis/Patterns.antt =====
-- app/analysis/deterministic.py: the word lists and the regular expressions of the checks, as they are
-- handed to `re`.
use mind_wall.Prelude.{String, List, [], ◌∷◌}

-- `_HIGH_RISK_EXTENSIONS`.
abbrev pub high_risk_extensions : List String
high_risk_extensions =
    ".exe" ∷ ".bat" ∷ ".cmd" ∷ ".com" ∷ ".scr" ∷ ".pif" ∷ ".vbs" ∷ ".vbe" ∷ ".js" ∷ ".jse" ∷ ".wsf"
    ∷ ".wsh" ∷ ".ps1" ∷ ".psm1" ∷ ".psd1" ∷ ".jar" ∷ ".jnlp" ∷ ".lnk" ∷ ".iso" ∷ ".img" ∷ ".docm"
    ∷ ".xlsm" ∷ ".pptm" ∷ ".hta" ∷ ".msi" ∷ ".dll" ∷ []

-- `_MEDIUM_RISK_EXTENSIONS`.
abbrev pub medium_risk_extensions : List String
medium_risk_extensions = ".zip" ∷ ".rar" ∷ ".7z" ∷ ".gz" ∷ ".tar" ∷ ".cab" ∷ ".ace" ∷ []

-- `_CREDENTIAL_PATTERNS`.
abbrev pub credential_patterns : List String
credential_patterns =
    "\\b(verify|confirm)\\s+(your\\s+)?(account|identity|email|password)\\b"
    ∷ "\\b(reset|update|change)\\s+(your\\s+)?(password|credentials?|login)\\b"
    ∷ "\\b(enter|provide|submit)\\s+(your\\s+)?(username|password|pin|otp|code)\\b"
    ∷ "\\bclick\\s+(here|the\\s+link|below)\\s+to\\s+(login|log\\s*in|verify|confirm|access)\\b"
    ∷ "\\bsign\\s*in\\s+to\\s+(your\\s+)?(account|portal)\\b"
    ∷ "\\byour\\s+account\\s+(has been|will be|is about to be)\\s+(suspended|locked|disabled|closed)\\b"
    ∷ "\\bunauthori[sz]ed\\s+access\\b" ∷ "\\bsecurity\\s+(alert|warning|breach|incident)\\b" ∷ []

-- `_PAYMENT_PATTERNS`.
abbrev pub payment_patterns : List String
payment_patterns =
    "\\b(invoice|payment|wire\\s+transfer|bank\\s+transfer)\\b"
    ∷ "\\b(overdue|past\\s+due|outstanding\\s+balance|amount\\s+due)\\b"
    ∷ "\\b(update|change|verify)\\s+(your\\s+)?(billing|payment|credit\\s+card|bank)\\s+(info|details|account)\\b"
    ∷ "\\breceive\\s+(your\\s+)?(refund|payment|compensation|reward)\\b"
    ∷ "\\b(bitcoin|crypto|wire)\\s+(transfer|payment)\\b" ∷ []

-- `_URGENCY_PATTERNS`.
abbrev pub urgency_patterns : List String
urgency_patterns =
    "\\b(urgent|immediate|critical|emergency|action\\s+required)\\b"
    ∷ "\\b(within\\s+\\d+\\s+(hour|minute|day)s?|by\\s+(today|tomorrow|midnight|end\\s+of\\s+day))\\b"
    ∷ "\\b(last\\s+(chance|opportunity)|limited\\s+time|expires?\\s+(soon|today))\\b"
    ∷ "\\bdo\\s+not\\s+(ignore|delay|wait)\\b" ∷ "\\bfailure\\s+to\\s+(act|respond|comply)\\b" ∷ []

-- `_FEAR_PATTERNS`.
abbrev pub fear_patterns : List String
fear_patterns =
    "\\b(threaten|threat|arrest|legal\\s+action|lawsuit|prosecution)\\b"
    ∷ "\\b(terminate|suspend|close|delete)\\s+(your\\s+)?(account|access|service)\\b"
    ∷ "\\b(penalty|fine|consequence|forfeiture)\\b"
    ∷ "\\byou\\s+(will|may|could|must)\\s+(be\\s+)?(charged|arrested|prosecuted|fined)\\b" ∷ []

-- `brand_words`.
abbrev pub brand_words : List String
brand_words =
    "paypal" ∷ "microsoft" ∷ "apple" ∷ "google" ∷ "amazon" ∷ "netflix" ∷ "bank" ∷ "irs" ∷ "fedex"
    ∷ "ups" ∷ "dhl" ∷ "support" ∷ "security" ∷ []

-- The words that are looked for in the path of an URL.
abbrev pub path_keywords : List String
path_keywords = "login" ∷ "signin" ∷ "verify" ∷ "account" ∷ "secure" ∷ "auth" ∷ []
