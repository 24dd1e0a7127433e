-- ===== src/Patterns/Multiline/Tables.antt =====
-- The tables of predefined patterns (pkg/patterns/multiline_matcher.go).
use patience.Base.{String, List, [], ◌∷◌, Text, codes}

-- `kind` is the language of a stack trace or the format of a log.
pub record Predefined : Type 0 where
  pub name : String
  pub pattern : Text
  pub kind : String
  pub extractors : List (String × Text)

abbrev pub stack_trace_patterns : List Predefined
stack_trace_patterns =
    record {
      name = "java_exception";
      pattern = codes "(?s)Exception in thread.*?\\n(\\s+at .*?)";
      kind = "java";
      extractors =
          ("exception_type", codes "Exception in thread \".*?\" ([^:]+)")
          ∷ ("message", codes "Exception in thread \".*?\" [^:]+: (.*?)\\n")
          ∷ ("stack_frames", codes "\\s+at ([^\\n]+)")
          ∷ [];
    }
    ∷ record {
      name = "python_exception";
      pattern = codes "(?s)Traceback \\(most recent call last\\):.*?\\n([^\\n]+Error: .*?)$";
      kind = "python";
      extractors =
          ("exception_type", codes "([^\\n]+Error): ")
          ∷ ("message", codes "[^\\n]+Error: (.*?)$")
          ∷ ("stack_frames", codes "File \"([^\"]+)\", line (\\d+), in ([^\\n]+)")
          ∷ [];
    }
    ∷ record {
      name = "go_panic";
      pattern = codes "(?s)panic: (.*?)\\n\\[signal.*?\\]\\n\\ngoroutine.*?\\[running\\]:";
      kind = "go";
      extractors =
          ("panic_message", codes "panic: (.*?)\\n")
          ∷ ("signal", codes "\\[signal ([^\\]]+)\\]")
          ∷ ("goroutine_id", codes "goroutine (\\d+) \\[running\\]")
          ∷ [];
    }
    ∷ record {
      name = "javascript_error";
      pattern = codes "(?s)(\\w+Error): ([^\\n]+)\\n(\\s+at .*?\\n)+";
      kind = "javascript";
      extractors =
          ("error_type", codes "(\\w+Error): ")
          ∷ ("message", codes "\\w+Error: ([^\\n]+)")
          ∷ ("stack_frames", codes "\\s+at ([^\\n]+)")
          ∷ [];
    }
    ∷ record {
      name = "csharp_exception";
      pattern = codes "(?s)Unhandled exception\\. ([^:]+): ([^\\n]+)\\n(\\s+at .*?\\n)+";
      kind = "csharp";
      extractors =
          ("exception_type", codes "Unhandled exception\\. ([^:]+): ")
          ∷ ("message", codes "Unhandled exception\\. [^:]+: ([^\\n]+)")
          ∷ ("stack_frames", codes "\\s+at ([^\\n]+)")
          ∷ [];
    }
    ∷ record {
      name = "rust_panic";
      pattern = codes "(?s)thread '.*?' panicked at '([^']+)', ([^\\n]+)\\nstack backtrace:";
      kind = "rust";
      extractors =
          ("panic_message", codes "thread '.*?' panicked at '([^']+)'")
          ∷ ("location", codes "panicked at '[^']+', ([^\\n]+)")
          ∷ ("thread_name", codes "thread '([^']+)' panicked")
          ∷ [];
    }
    ∷ []

abbrev pub structured_log_patterns : List Predefined
structured_log_patterns =
    record {
      name = "json_error";
      pattern = codes "(?s)\\{[^}]*\"level\"\\s*:\\s*\"ERROR\"[^}]*\\}";
      kind = "json";
      extractors =
          ("timestamp", codes "\"timestamp\"\\s*:\\s*\"([^\"]+)\"")
          ∷ ("message", codes "\"message\"\\s*:\\s*\"([^\"]+)\"")
          ∷ ("error_type", codes "\"type\"\\s*:\\s*\"([^\"]+)\"")
          ∷ [];
    }
    ∷ record {
      name = "yaml_error";
      pattern = codes "(?s)error:\\s*\\n\\s+code:\\s*\\d+\\s*\\n\\s+message:";
      kind = "yaml";
      extractors =
          ("error_code", codes "code:\\s*(\\d+)") ∷ ("message", codes "message:\\s*([^\\n]+)") ∷ [];
    }
    ∷ record {
      name = "xml_error";
      pattern = codes "(?s)<error>.*?<code>\\d+</code>.*?<message>.*?</message>.*?</error>";
      kind = "xml";
      extractors =
          ("error_code", codes "<code>(\\d+)</code>")
          ∷ ("message", codes "<message>(.*?)</message>")
          ∷ ("path", codes "<path>(.*?)</path>")
          ∷ [];
    }
    ∷ record {
      name = "log_continuation";
      pattern =
          codes "(?s)\\d{4}-\\d{2}-\\d{2} \\d{2}:\\d{2}:\\d{2} ERROR [^\\n]+\\n(\\s+[^\\n]+\\n)+";
      kind = "text";
      extractors =
          ("timestamp", codes "(\\d{4}-\\d{2}-\\d{2} \\d{2}:\\d{2}:\\d{2})")
          ∷ ("main_message", codes "ERROR ([^\\n]+)")
          ∷ ("details", codes "\\n(\\s+[^\\n]+)")
          ∷ [];
    }
    ∷ record {
      name = "multiline_json_array";
      pattern = codes "(?s)\\[\\s*\\{[^\\]]*\"error\"[^\\]]*\\}\\s*\\]";
      kind = "json";
      extractors = ("error_objects", codes "\\{([^}]*\"error\"[^}]*)\\}") ∷ [];
    }
    ∷ record {
      name = "docker_build_error";
      pattern =
          codes
            "(?s)Step \\d+/\\d+ : .*?\\n.*?npm ERR!.*?\\nThe command.*?returned a non-zero code";
      kind = "text";
      extractors =
          ("step", codes "Step (\\d+/\\d+)")
          ∷ ("command", codes "The command '([^']+)'")
          ∷ ("exit_code", codes "returned a non-zero code: (\\d+)")
          ∷ [];
    }
    ∷ record {
      name = "k8s_crashloop";
      pattern =
          codes
            "(?s)Events:.*?Type\\s+Reason\\s+Age.*?Warning\\s+BackOff.*?Back-off restarting failed container";
      kind = "text";
      extractors =
          ("pod_name", codes "Successfully assigned [^/]+/([^\\s]+)")
          ∷ ("backoff_count", codes "\\(x(\\d+) over")
          ∷ [];
    }
    ∷ record {
      name = "db_pool_exhausted";
      pattern =
          codes
            "(?s)HikariPool-\\d+ - Connection is not available.*?request timed out.*?Database operation failed";
      kind = "text";
      extractors =
          ("pool_name", codes "(HikariPool-\\d+)")
          ∷ ("timeout_ms", codes "timed out after (\\d+)ms")
          ∷ [];
    }
    ∷ record {
      name = "api_rate_limit_detailed";
      pattern =
          codes
            "(?s)HTTP/1\\.1 429 Too Many Requests.*?X-RateLimit-Limit: \\d+.*?\\{.*?\"rate_limit_exceeded\".*?\\}";
      kind = "text";
      extractors =
          ("rate_limit", codes "X-RateLimit-Limit: (\\d+)")
          ∷ ("remaining", codes "X-RateLimit-Remaining: (\\d+)")
          ∷ ("reset_time", codes "X-RateLimit-Reset: (\\d+)")
          ∷ ("retry_after", codes "Retry-After: (\\d+)")
          ∷ [];
    }
    ∷ []
