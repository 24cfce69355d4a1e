-- ===== src/Runners/JavaSetup.antt =====
-- harness/lang/java/runner.py: the preparation of a container by `JavaRunner`, and its probe. The
-- scripts are the source's texts; `repr` is Python's.
use bmk_dev.Base.{true, false, Option, none, some, List, [], ◌∷◌, ◌++◌}
use bmk_dev.Base.Text.{Text, codes, quote}
use bmk_dev.Runners.{Step, Env}

abbrev pub candidate_version_flags : Text
candidate_version_flags =
    codes "\"-Dcandidate.version=$(cat .candidate-version)\" \"-D$(cat "
    ++ codes ".candidate-version-property)=$(cat .candidate-version)\""

-- The texts of the two patterns.
abbrev pub class_pattern : Text
class_pattern = codes "\\b(?:public\\s+|final\\s+|abstract\\s+)*class\\s+(\\w+)"

abbrev pub method_pattern : Text
method_pattern =
    codes "@(?:Test|ParameterizedTest|RepeatedTest|TestFactory)\\b\\s*(?:\\([^)]*\\))?(?:\\s*@"
    ++ codes "\\w+\\s*(?:\\([^)]*\\))?)*\\s*(?:(?:public|private|protected|static|final|abstract|"
    ++ codes "synchronized)\\s+)*[\\w.<>\\[\\],\\s]+?\\s+(\\w+)\\s*\\("

module _ (repr : Text → Text) where
  abbrev pub version_probe : Text → Text
  version_probe workspace =
      codes "import xml.etree.ElementTree as ET\n"
      ++ codes "root = ET.parse("
      ++ repr (workspace ++ codes "/pom.xml")
      ++ codes ").getroot()\n"
      ++ codes "ns = {'m': root.tag.split('}')[0].strip('{')} if '}' in root.tag else {}\n"
      ++ codes "node = root.find('m:version', ns) if ns else root.find('version')\n"
      ++ codes "assert node is not None and node.text and '${' not in node.text, 'candidate "
      ++ codes "root pom.xml must declare a concrete project version'\n"
      ++ codes "print(node.text.strip())\n"

  abbrev pub version_property_probe : Text → Text → Text
  version_property_probe target_coordinate oracle =
      codes "import re, xml.etree.ElementTree as ET\n"
      ++ codes "target_group, target_artifact = "
      ++ repr (target_coordinate)
      ++ codes ".split(':', 1)\n"
      ++ codes "root = ET.parse("
      ++ repr (oracle ++ codes "/pom.xml")
      ++ codes ").getroot()\n"
      ++ codes "ns = {'m': root.tag.split('}')[0].strip('{')} if '}' in root.tag else {}\n"
      ++ codes "dependencies = root.findall('.//m:dependency', ns) if ns else "
      ++ codes "root.findall('.//dependency')\n"
      ++ codes "find = (lambda p, t: p.find(f'm:{t}', ns)) if ns else (lambda p, t: "
      ++ codes "p.find(t))\n"
      ++ codes "property_name = 'candidate.version'\n"
      ++ codes "for dependency in dependencies:\n"
      ++ codes "    group = find(dependency, 'groupId')\n"
      ++ codes "    artifact = find(dependency, 'artifactId')\n"
      ++ codes "    version = find(dependency, 'version')\n"
      ++ codes "    if (group is not None and group.text and group.text.strip() == "
      ++ codes "target_group and artifact is not None and artifact.text and "
      ++ codes "artifact.text.strip() == target_artifact and version is not None and "
      ++ codes "version.text):\n"
      ++ codes "        match = re.fullmatch(r'\\$\\{([A-Za-z0-9_.-]+)\\}', "
      ++ codes "version.text.strip())\n"
      ++ codes "        if match:\n"
      ++ codes "            property_name = match.group(1)\n"
      ++ codes "        break\n"
      ++ codes "print(property_name)\n"

  abbrev pub target_version_rewrite : Text → Text → Text
  target_version_rewrite target_coordinate oracle =
      codes "import xml.etree.ElementTree as ET\n"
      ++ codes "from pathlib import Path\n"
      ++ codes "pom = Path("
      ++ repr (oracle ++ codes "/pom.xml")
      ++ codes ")\n"
      ++ codes "candidate = Path("
      ++ repr (oracle ++ codes "/.candidate-version")
      ++ codes ").read_text().strip()\n"
      ++ codes "target_group, target_artifact = "
      ++ repr (target_coordinate)
      ++ codes ".split(':', 1)\n"
      ++ codes "tree = ET.parse(pom)\n"
      ++ codes "root = tree.getroot()\n"
      ++ codes "namespace = root.tag.split('}')[0].strip('{') if '}' in root.tag else ''\n"
      ++ codes "prefix = f'{{{namespace}}}' if namespace else ''\n"
      ++ codes "dependencies = root.findall(f'.//{prefix}dependency')\n"
      ++ codes "rewritten = 0\n"
      ++ codes "for dependency in dependencies:\n"
      ++ codes "    group = dependency.find(f'{prefix}groupId')\n"
      ++ codes "    artifact = dependency.find(f'{prefix}artifactId')\n"
      ++ codes "    system_path = dependency.find(f'{prefix}systemPath')\n"
      ++ codes "    if (group is None or artifact is None or group.text is None or "
      ++ codes "artifact.text is None\n"
      ++ codes "            or group.text.strip() != target_group or artifact.text.strip() != "
      ++ codes "target_artifact\n"
      ++ codes "            or system_path is not None):\n"
      ++ codes "        continue\n"
      ++ codes "    version = dependency.find(f'{prefix}version')\n"
      ++ codes "    if version is None:\n"
      ++ codes "        version = ET.SubElement(dependency, f'{prefix}version')\n"
      ++ codes "    version.text = candidate\n"
      ++ codes "    rewritten += 1\n"
      ++ codes "if rewritten:\n"
      ++ codes "    if namespace:\n"
      ++ codes "        ET.register_namespace('', namespace)\n"
      ++ codes "    tree.write(pom, encoding='unicode', xml_declaration=False)\n"
      ++ codes "Path("
      ++ repr (oracle ++ codes "/.rewrite-target-dependency")
      ++ codes ").write_text(str(rewritten))\n"

  abbrev pub warmup_test_probe : Text → Text
  warmup_test_probe oracle =
      codes "import re\n"
      ++ codes "from pathlib import Path\n"
      ++ codes "root = Path("
      ++ repr (oracle ++ codes "/src/test/java")
      ++ codes ")\n"
      ++ codes "class_pattern = re.compile("
      ++ repr (class_pattern)
      ++ codes ")\n"
      ++ codes "method_pattern = re.compile("
      ++ repr (method_pattern)
      ++ codes ", re.DOTALL)\n"
      ++ codes "for suite in ('atomic', 'integration'):\n"
      ++ codes "    for source in sorted((root / suite).rglob('*.java')):\n"
      ++ codes "        text = source.read_text(encoding='utf-8-sig', errors='replace')\n"
      ++ codes "        class_match = class_pattern.search(text)\n"
      ++ codes "        method_match = method_pattern.search(text)\n"
      ++ codes "        if class_match and method_match:\n"
      ++ codes "            print(f'{class_match.group(1)}#{method_match.group(1)}')\n"
      ++ codes "            raise SystemExit(0)\n"
      ++ codes "raise AssertionError('oracle has no test method for Surefire warm-up')\n"

  abbrev pub check_maven : Step
  check_maven = record {
    command = codes "mvn --version";
    timeout = 120;
    required = true;
    capture = false;
  }

  abbrev pub install_project : Text → Step
  install_project workspace = record {
    command =
        codes "cd "
        ++ workspace
        ++ codes " && if [ -f pom.xml ]; then mvn -B -DskipTests install "
        ++ codes "-Dmaven.buildNumber.skip=true -Dlicense.skip=true -Ddocker.skip=true "
        ++ codes "-Drewrite.skip=true -Dformatter.skip=true -Dimpsort.skip=true "
        ++ codes "-Dwhitespace.skip=true 2>&1; fi";
    timeout = 900;
    required = false;
    capture = true;
  }

  abbrev pub write_versions : Text → Text → Text → Step
  write_versions workspace target_coordinate oracle = record {
    command =
        codes "python3 -c "
        ++ quote (version_probe workspace)
        ++ codes " > "
        ++ oracle
        ++ codes "/.candidate-version && python3 -c "
        ++ quote (version_property_probe target_coordinate oracle)
        ++ codes " > "
        ++ oracle
        ++ codes "/.candidate-version-property";
    timeout = 120;
    required = true;
    capture = false;
  }

  abbrev pub compile_and_warm : Text → Text → Step
  compile_and_warm target_coordinate oracle = record {
    command =
        codes "python3 -c "
        ++ quote (target_version_rewrite target_coordinate oracle)
        ++ codes " && cd "
        ++ oracle
        ++ codes " && mvn -B -DskipTests "
        ++ candidate_version_flags
        ++ codes " test-compile 2>&1 && python3 -c "
        ++ quote (warmup_test_probe oracle)
        ++ codes " > .warmup-test && mvn -B test "
        ++ candidate_version_flags
        ++ codes " -Dmaven.test.failure.ignore=true \"-Dtest=$(cat .warmup-test)\" 2>&1";
    timeout = 900;
    required = false;
    capture = true;
  }

  abbrev pub first_target : List Text → Text
  first_target [] = []
  first_target (target ∷ targets) = target

  unfoldable pub java_setup : {Host : Type 0} → Env Host → List Step
  java_setup env =
      let target = first_target env.target_modules in
      check_maven
      ∷ install_project env.workspace
      ∷ write_versions env.workspace target env.oracle
      ∷ compile_and_warm target env.oracle
      ∷ []

  -- `repr_names` is Python's `repr` of a list of names.
  module _ (repr_names : List Text → Text) where
    abbrev pub reshape_script : List Text → Text → Text → Text
    reshape_script names workspace oracle =
        codes "import json, re, sys, xml.etree.ElementTree as ET\n"
        ++ codes "from pathlib import Path\n"
        ++ codes "names = "
        ++ repr_names names
        ++ codes "\n"
        ++ codes "workspace = "
        ++ repr (workspace)
        ++ codes "\n"
        ++ codes "oracle = "
        ++ repr (oracle)
        ++ codes "\n"
        ++ codes "found = {}\n"
        ++ codes "for line in sys.stdin:\n"
        ++ codes
            "    match = re.search(r'([\\w.\\-]+):([\\w.\\-]+):[\\w.\\-]+:[\\w.\\-]+:[\\w.\\-]+:(\\S+)"
        ++ codes "', line)\n"
        ++ codes "    if match:\n"
        ++ codes "        group, artifact, path = match.groups()\n"
        ++ codes "        found.setdefault(artifact, path)\n"
        ++ codes "        found.setdefault(f'{group}:{artifact}', path)\n"
        ++ codes "own = set()\n"
        ++ codes "root_group = root_artifact = None\n"
        ++ codes "workspace_root = Path(workspace)\n"
        ++ codes "for pom in sorted(workspace_root.rglob('pom.xml')):\n"
        ++ codes "    if 'target' in pom.relative_to(workspace_root).parts:\n"
        ++ codes "        continue\n"
        ++ codes "    try:\n"
        ++ codes "        project = ET.parse(pom).getroot()\n"
        ++ codes "        ns = {'m': project.tag.split('}')[0].strip('{')} if '}' in "
        ++ codes "project.tag else {}\n"
        ++ codes "        find = (lambda p, t: p.find(f'm:{t}', ns)) if ns else (lambda p, t: "
        ++ codes "p.find(t))\n"
        ++ codes "        group = find(project, 'groupId')\n"
        ++ codes "        artifact = find(project, 'artifactId')\n"
        ++ codes "        parent = find(project, 'parent')\n"
        ++ codes "        if (group is None or not group.text) and parent is not None:\n"
        ++ codes "            group = find(parent, 'groupId')\n"
        ++ codes "        if artifact is None or not artifact.text:\n"
        ++ codes "            continue\n"
        ++ codes "        artifact_text = artifact.text.strip()\n"
        ++ codes "        group_text = group.text.strip() if group is not None and group.text "
        ++ codes "else None\n"
        ++ codes "        own.add(artifact_text)\n"
        ++ codes "        if group_text:\n"
        ++ codes "            own.add(f'{group_text}:{artifact_text}')\n"
        ++ codes "        if pom.parent == workspace_root:\n"
        ++ codes "            root_group, root_artifact = group_text, artifact_text\n"
        ++ codes "    except Exception:\n"
        ++ codes "        continue\n"
        ++ codes "system_paths = sorted({path for path in found.values() if "
        ++ codes "Path(path).is_relative_to(Path(oracle))})\n"
        ++ codes "rows = []\n"
        ++ codes "for n in names:\n"
        ++ codes "    path = found.get(n)\n"
        ++ codes "    own_name = n\n"
        ++ codes "    system_fallback = False\n"
        ++ codes "    if path is None and root_group and root_artifact and n == root_group:\n"
        ++ codes "        own_name = f'{root_group}:{root_artifact}'\n"
        ++ codes "        path = found.get(own_name)\n"
        ++ codes "    if path is None and len(system_paths) == 1:\n"
        ++ codes "        path = system_paths[0]\n"
        ++ codes "        system_fallback = True\n"
        ++ codes "    rows.append({'name': n,\n"
        ++ codes "                 'paths': [path] if path else [],\n"
        ++ codes "                 'direct_urls': ([f'file://{workspace}']\n"
        ++ codes "                                 if path and (own_name in own or "
        ++ codes "system_fallback) else []),\n"
        ++ codes "                 'error': None if path else 'absent from dependency:list'})\n"
        ++ codes "print('__PROVENANCE__' + json.dumps(rows, sort_keys=True))\n"

    abbrev pub provenance_command : List Text → Text → Text → Option Text
    provenance_command [] workspace oracle = none
    provenance_command (target ∷ names) workspace oracle = some (
        codes "cd "
        ++ quote (oracle)
        ++ codes " && mvn -B -o dependency:list "
        ++ candidate_version_flags
        ++ codes " -DoutputAbsoluteArtifactFilename=true 2>/dev/null | python3 -c "
        ++ quote (reshape_script (target ∷ names) workspace oracle))

    unfoldable pub java_provenance : {Host : Type 0} → Env Host → Option Text
    java_provenance env = provenance_command env.target_modules env.workspace env.oracle
