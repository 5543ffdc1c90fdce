-- ===== src/Lib.antt =====
-- AI-Scan-Interceptor watches what a company's users send to AI services. A TLS proxy (tls-proxy/)
-- opens the connections, authenticates devices by certificate and hands requests to an ICAP server
-- (icap-server/), which finds the prompt, tests it against alert rules and lets the request pass,
-- masks it or refuses it. A dashboard (webui/) manages users, rules, devices, enrollment tokens and
-- the revocation list. The three share JSON files in one configuration folder.
--
-- Which file models which part:
-- - Icap.Policy: icap-server/policy/config.go (GetMode is get_mode, Set is set_policy).
-- - Icap.Rules: icap-server/detection/rules.go and rules_store.go (match is match_rule,
--   EntriesToAlertRules is entries_to_alert_rules, computeSeverity is compute_severity).
-- - Icap.Services, Icap.Filename, Icap.Detect: patterns.go and detector.go of the same folder
--   (findRule, checkSensitiveFilename, Detect, detectMultipartUpload).
-- - Icap.Extract with its Bodies and Gemini: the extractors of patterns.go (extractOpenAI is
--   extract_open_ai_body, stripSystemTags is strip_system_tags); Icap.Json is the tree of a decoded value.
-- - Icap.Mask: mask.go (maskAny is mask_any, MaskSensitiveForService is mask_sensitive_for_service).
-- - Icap.Chunks, Icap.Server: icap-server/icap/server.go (readChunked, readRequest, parseEncapsulated);
--   Icap.Server.Response has its responses, Icap.Server.Serving the loop of serve and ServeRESPMOD of
--   response_handler.go, Icap.Server.Enforced the handler of prompts on that loop.
-- - Icap.Hostname: icap-server/icap/hostname.go. Icap.Notification: icap-server/notification/.
-- - Icap.Handler, Icap.Identity: icap-server/icap/handler.go (ServeREQMOD is serve_reqmod);
--   Icap.Chats puts extractors, detection and handler together.
-- - TlsProxy.Serial, TlsProxy.Crl: tls-proxy/crl.go and the hook of mtls.go.
-- - TlsProxy.DeviceStore, TlsProxy.Enroll: tls-proxy/devicestore.go and enroll.go.
-- - TlsProxy.Intercept, TlsProxy.CertCache: tls-proxy/main.go (interceptTLS is intercept_request and
--   intercept_loop, inspectRequest is inspect_request, get is get_cert).
-- - Webui.CrlStore, Webui.DeviceStore, Webui.EnrollTokens: the stores of the same names in webui/.
-- - Webui.Users, Webui.Sessions, Webui.RateLimit: webui/auth.go.
-- - Webui.Login: the authentication and user handlers of webui/handler.go; Webui.Login.Logins has
--   handleLogin, in the steps between which other requests run (step).
-- - Webui.Rules: its rules handlers, on the file that Icap.Rules compiles.
-- - Webui.PolicyPage: its policy handler, on the file that Icap.Policy reloads.
-- - Webui.Settings: webui/notificationsettings.go, webui/logsettings.go and their pages.
-- - Webui.Devices: its handlers of devices, enrollment tokens and revoked serials.
-- - Connect.Forwarder: connect/proxy/forwarder.go.
-- - Revocation: the path from the dashboard's Revoke to the proxy's handshake, through the file.
-- - Base and Strings: lists, records with a key, files, and the functions of Go's strings package.
--
-- State is a record, and an operation a function from the state to the new state and a result. A
-- file is one of: missing, unreadable, empty, malformed, or holding a value (Base.Disk). The outcome
-- of a write, of a lock, of bcrypt, of the random source and each reading of the clock are
-- arguments. A write over a temporary file either succeeds or leaves the old file; one by os.WriteFile
-- may also leave an empty or a torn file. Handlers are one step each, but logins, which other requests
-- overtake, are three (Webui.Login.Logins). Go maps are lists of records with distinct keys, in the order of one iteration. Text is
-- a list of bytes. Times are seconds and 0 is Go's zero time. Regular expressions are their source
-- text, and Go's regexp, multipart, base64, encoding/json and Unicode lower case are parameters. The
-- detection takes the extractors as a parameter and the handler takes detection and masking, so what
-- is proved of them holds for those of Icap.Extract and Icap.Mask and for any others.
--
-- Loops are structural recursion. The digits of a serial are computed on fuel, the serial itself,
-- which is enough as each round divides it by sixteen (TlsProxy.Serial.Text16); those of other numbers
-- likewise (Strings.Numbers). The loops over a connection take the number of bytes left as fuel, as
-- each round reads a line, and the loop that strips tags the length of the text, as each round
-- shortens it.
--
-- Not modelled: network and process set-up, TLS, key generation, the text of alerts and their sending,
-- the SIEM export, the log search of the dashboard, and the enrollment, configuration and system
-- integration of the agent in connect/.
pub mod Base
pub mod Strings
pub mod TlsProxy
pub mod Icap
pub mod Webui
pub mod Connect
pub mod Revocation
